-- ===== src/Network/Handshake/Answers.antt =====
-- What an answer of a session leaves as it was.
use cpp_toolkit.Prelude.{
  ℕ, ◌+◌, ◌≡◌, refl, ◌∙◌, arith, Bool, true, Option, none, some, List, bytes_eq,
}
use cpp_toolkit.Utilities.Converter.{to_array}
use cpp_toolkit.Thread.Job.{Text, Outcome}
use cpp_toolkit.Thread.ThreadPool.{ThreadPool, push_job}
use cpp_toolkit.Network.DataHandler.{ConnectConditions, condition_eq}
use cpp_toolkit.Network.Messages.{Sender, connection, send}
use cpp_toolkit.Network.Handshake.{
  Json, Session, answer_of, answer_with, response_connection, set_line, with_key, answer_by,
  report_job,
}

pub send_condition :
    (bytes : List ℕ) (sender : Sender)
    → (send connection bytes sender).0.condition ≡ sender.condition
unfolding send
send_condition bytes sender = ground arith

pub send_module :
    (bytes : List ℕ) (sender : Sender)
    → (send connection bytes sender).0.use_encrypt_module ≡ sender.use_encrypt_module
unfolding send
send_module bytes sender = ground arith

-- An answer changes nothing of a session but its thread pool.
abbrev pub Same : Session → Session → Type 0
Same before after =
    (after.sender.condition ≡ before.sender.condition)
    × (after.id ≡ before.id)
    × (after.drawn ≡ before.drawn)
    × (after.encrypt_mode ≡ before.encrypt_mode)
    × (after.sender.use_encrypt_module ≡ before.sender.use_encrypt_module)

pub answer_by-Same :
    (bytes : List ℕ) (session : Session) (pool : Option ThreadPool)
    (callback : Option (List ℕ → Outcome))
    → Same session (answer_by bytes session pool callback).0
answer_by-Same bytes session (some pool) callback =
    let job = report_job session bytes in
    let sender = record session.sender { thread_pool = some (push_job (some job) pool).0 } in
    (send_condition bytes sender, refl, refl, refl, send_module bytes sender)
answer_by-Same bytes session none none = (refl, refl, refl, refl, refl)
answer_by-Same bytes session none (some call) = (refl, refl, refl, refl, refl)

pub response-Same :
    (json : Json) (condition : Bool) (session : Session)
    → Same (with_key session) (response_connection json condition session).0
unfolding response_connection answer_with
response-Same json condition session =
    let session' = with_key session in
    let bytes = to_array (json.answer_text (answer_of condition session')) in
    answer_by-Same bytes session' session'.sender.thread_pool session'.callback

pub with_key_condition :
    (session : Session) → (with_key session).sender.condition ≡ session.sender.condition
with_key_condition session = ground arith

pub with_key_id : (session : Session) → (with_key session).id ≡ session.id
with_key_id session = ground arith

-- A session under the id of a request.
abbrev pub named : Text → Session → Session
named id session = record session { id = id }

-- The session in another condition.
abbrev pub in_condition : ConnectConditions → Session → Session
in_condition condition session = record session { sender = set_line condition session.sender }

pub response_condition :
    (json : Json) (answer : Bool) (session : Session)
    → (response_connection json answer session).0.sender.condition ≡ session.sender.condition
response_condition json answer session =
    (response-Same json answer session).0 ∙ with_key_condition session

pub response_drawn :
    (json : Json) (answer : Bool) (session : Session)
    → session.sender.use_encrypt_module ≡ true
    → session.encrypt_mode ≡ true
    → (response_connection json answer session).0.drawn ≡ session.drawn + 1
response_drawn json answer session module_there encrypts =
    (response-Same json answer session).2 ∙ rw (module_there, encrypts) refl

pub with_key_mode : (session : Session) → (with_key session).encrypt_mode ≡ session.encrypt_mode
with_key_mode session = ground arith

pub with_key_module :
    (session : Session)
    → (with_key session).sender.use_encrypt_module ≡ session.sender.use_encrypt_module
with_key_module session = ground arith

pub with_key_sub_id : (session : Session) → (with_key session).sub_id ≡ session.sub_id
with_key_sub_id session = ground arith
