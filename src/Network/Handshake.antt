-- ===== src/Network/Handshake.antt =====
-- How a connection is confirmed or refused: received_connection, response_connection and disconnected of
-- NetworkSession.cpp and NetworkClient.cpp, and ConnectionJob.cpp. The JSON texts are a parameter, `Json`,
-- Boost.JSON's; what an exception of it leaves behind is not followed. The callbacks of the library's user
-- are set or null, and those that a client calls are counted in `told`, with their arguments.
pub mod Answers
pub mod Texts
pub mod Knowing
pub mod Confirming
use cpp_toolkit.Prelude.{
  ℕ, suc, ◌+◌, Bool, true, false, not, ◌&&◌, Option, none, some, List, [], ◌∷◌, ◌++◌, codes,
  if◌then◌else◌, ◌==◌, bytes_eq, is_empty,
}
use cpp_toolkit.Utilities.Combiner.{◌>>=◌}
use cpp_toolkit.Utilities.Converter.{to_array, to_string}
use cpp_toolkit.Thread.JobPriorities.{normal}
use cpp_toolkit.Thread.Job.{Job, Text, Outcome, make_job, make_data_job}
use cpp_toolkit.Thread.ThreadPool.{ThreadPool, push_job}
use cpp_toolkit.Network.DataHandler.{ConnectConditions, waiting, expired, confirmed, condition_eq}
use cpp_toolkit.Network.Messages.{Sender, DataModes, connection, send}

-- The message of request_connection. A registered_key that is no string is `none`.
pub record Request : Type 0 where
  pub id : Text
  pub sub_id : Text
  pub registered_key : Option Text
  pub condition : Bool

-- The key, iv and encrypt_mode of an answer; `none` has another type than the one that is asked for.
pub record Secret : Type 0 where
  pub key : Option Text
  pub iv : Option Text
  pub encrypt_mode : Option Bool

-- The message of response_connection. Without USE_ENCRYPT_MODULE it has no Secret.
pub record Answer : Type 0 where
  pub id : Text
  pub sub_id : Text
  pub secret : Option Secret
  pub condition : Bool

-- serialize and parse. `none`: parse, as_object, at or one of the as_ functions throws.
pub record Json : Type 0 where
  pub request_text : Request → Text
  pub answer_text : Answer → Text
  pub parse_request : Text → Option Request
  pub parse_answer : Text → Option Answer

-- What the handshake uses of a NetworkSession. `keys` are what Encryptor::create_key gives, one after the
-- other; `callback` is received_connection_callback_, if it is set.
pub record Session : Type 0 where
  pub sender : Sender
  pub id : Text
  pub sub_id : Text
  pub registered_key : Text
  pub encrypt_mode : Bool
  pub key : Text
  pub iv : Text
  pub keys : ℕ → Text × Text
  pub drawn : ℕ
  pub callback : Option (List ℕ → Outcome)

abbrev pub set_line : ConnectConditions → Sender → Sender
set_line condition sender = record sender { condition = condition }

abbrev pub secret_of : Session → Option Secret
secret_of session =
    if session.sender.use_encrypt_module
    then some (record {
      key = some session.key;
      iv = some session.iv;
      encrypt_mode = some session.encrypt_mode;
    })
    else none

-- The session once it has drawn a key, if it encrypts.
abbrev pub with_key : Session → Session
with_key session =
    if session.sender.use_encrypt_module && session.encrypt_mode
    then record session {
      key = (session.keys session.drawn).0;
      iv = (session.keys session.drawn).1;
      drawn = session.drawn + 1;
    }
    else session

unfoldable pub answer_of : Bool → Session → Answer
answer_of condition session = record {
  id = session.id;
  sub_id = session.sub_id;
  secret = secret_of session;
  condition = condition;
}

abbrev pub report_job : Session → List ℕ → Job
report_job session array_data =
    let job = make_data_job normal array_data (codes "received_connection_job") true in
    record job { callback4 = elim session.callback [ none ↦ false | some call ↦ true ] }

-- What response_connection does with its text, by its thread pool and its callback: it is reported and
-- sent, or handed over.
abbrev pub answer_by :
    List ℕ → Session → Option ThreadPool → Option (List ℕ → Outcome) → Session × Outcome
answer_by array_data session (some pool) callback =
    let pushed = push_job (some (report_job session array_data)) pool in
    let (sender', outcome) =
      send connection array_data (record session.sender { thread_pool = some pushed.0 }) in
    (record session { sender = sender' }, outcome)
answer_by array_data session none none =
    (session, (false, some (codes "there is no callback to handle connection")))
answer_by array_data session none (some call) = (session, call array_data)

unfoldable pub answer_with : List ℕ → Session → Session × Outcome
answer_with array_data session =
    answer_by array_data session session.sender.thread_pool session.callback

unfoldable pub response_connection : Json → Bool → Session → Session × Outcome
unfolding answer_of to_array
response_connection json condition session =
    let session' = with_key session in
    answer_with (to_array (json.answer_text (answer_of condition session'))) session'

-- condition(new_condition), whose disconnected answers.
unfoldable pub set_condition : Json → ConnectConditions → Session → Session
set_condition json condition session =
    let session' = record session { sender = set_line condition session.sender } in
    if session.sender.condition == condition
    then session
    else if condition == expired
    then (response_connection json false session').0
    else session'

-- The key of a request is the one that is registered.
abbrev pub has_key : Text → Option Text → Bool
has_key registered_key none = false
has_key registered_key (some key) = key == registered_key

-- NetworkSession::received_connection. `none`: it throws.
unfoldable pub session_received : Json → List ℕ → Session → Option (Session × Outcome)
unfolding to_string
session_received json bytes session =
    if not (session.sender.condition == waiting)
    then some (session, (false, some (codes "the line is not waiting for connection")))
    else if is_empty bytes
    then some (session, (false, some (codes "received empty data for connection")))
    else (json.parse_request (to_string bytes) >>= (λ request.
        let named = record session { id = request.id } in
        some (
          if not (has_key session.registered_key request.registered_key)
          then response_connection json false (set_condition json expired named)
          else response_connection json true (set_condition json confirmed named))))

-- What the handshake uses of a NetworkClient. `told` are the direct calls of the callback, the last first.
pub record Client : Type 0 where
  pub sender : Sender
  pub id : Text
  pub sub_id : Text
  pub server_id : Text
  pub registered_key : Text
  pub encrypt_mode : Bool
  pub key : Text
  pub iv : Text
  pub callback : Bool
  pub told : List (Bool × Bool)

-- request_connection, as far as its text.
unfoldable pub request_of : Client → Request
request_of client = record {
  id = client.id;
  sub_id = client.sub_id;
  registered_key = some client.registered_key;
  condition = true;
}

-- condition(new_condition, by_itself), whose disconnected calls the callback.
unfoldable pub set_client_condition : ConnectConditions → Bool → Client → Client
set_client_condition condition by_itself client =
    let client' = record client { sender = set_line condition client.sender } in
    if client.sender.condition == condition
    then client
    else if condition == expired
    then record client' {
      key = [];
      iv = [];
      told = if client.callback then (false, by_itself) ∷ client.told else client.told;
    }
    else client'

-- A ConnectionJob: what it hands to its callback.
pub record ConnectionJob : Type 0 where
  pub condition : Bool
  pub by_itself : Bool

abbrev pub connection_job : Job
connection_job = make_job normal [] (codes "ConnectionJob") true

-- ConnectionJob::working: what the callback is called with, or an error.
unfoldable pub working : Bool → ConnectionJob → Option Text × List (Bool × Bool)
working callback job =
    if not callback
    then (some (codes "cannot complete ConnectionJob with null callback"), [])
    else (none, (job.condition, job.by_itself) ∷ [])

-- The client once it has pushed a ConnectionJob for its callback, if there are a callback and a pool; and
-- that job.
abbrev pub report : Bool → Client → Client × Option ConnectionJob
report condition client =
    if not client.callback then (client, none) else elim client.sender.thread_pool [
      | none ↦ (client, none)
      | some pool ↦ (
        record client {
          sender = record client.sender {
            thread_pool = some (push_job (some connection_job) pool).0;
          };
        },
        some (record { condition = condition; by_itself = true }),
      )
    ]

abbrev pub taken {ℓ} : {A : Type ℓ} → Option A → A → A
taken none old = old
taken (some new) old = new

-- What the client takes of an answer, by whether it has USE_ENCRYPT_MODULE. `none`: at throws where there
-- is no Secret.
abbrev pub with_secret : Bool → Option Secret → Client → Option Client
with_secret false secret client = some client
with_secret true none client = none
with_secret true (some secret) client = some (record client {
  key = taken secret.key client.key;
  iv = taken secret.iv client.iv;
  encrypt_mode = taken secret.encrypt_mode client.encrypt_mode;
})

-- The answer once it is taken.
unfoldable pub answered : Bool → Client → Client × Outcome × Option ConnectionJob
unfolding set_client_condition
answered condition client =
    if not condition
    then (let (lost, job) =
          report false (record (set_client_condition expired false client) { key = []; iv = [] }) in
        (lost, (false, some (codes "connection has expired by server")), job))
    else (let (told, job) = report true (set_client_condition confirmed false client) in
        (told, (true, none), job))

-- NetworkClient::received_connection, with the job that it pushes. `none`: it throws.
unfoldable pub client_received :
    Json → List ℕ → Client → Option (Client × Outcome × Option ConnectionJob)
unfolding to_string
client_received json bytes client =
    if not (client.sender.condition == waiting)
    then some (client, (false, some (codes "the line is not waiting for connection")), none)
    else if is_empty bytes
    then some (client, (false, some (codes "received empty data for connection")), none)
    else (json.parse_answer (to_string bytes) >>= (λ answer.
        with_secret client.sender.use_encrypt_module answer.secret
          (record client { server_id = answer.id; sub_id = answer.sub_id })
        >>= (λ known. some (answered answer.condition known))))
