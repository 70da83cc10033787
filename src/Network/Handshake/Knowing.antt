-- ===== src/Network/Handshake/Knowing.antt =====
-- What a client does with an answer.
use cpp_toolkit.Prelude.{◌≡◌, refl, ap, ◌∙◌, arith, true, Option, none, some, bytes_eq}
use cpp_toolkit.Utilities.Combiner.{◌>>=◌}
use cpp_toolkit.Utilities.Converter.{to_array}
use cpp_toolkit.Thread.Job.{Outcome}
use cpp_toolkit.Network.DataHandler.{waiting, confirmed, condition_eq}
use cpp_toolkit.Network.Handshake.{
  Json, Answer, Session, Client, ConnectionJob, answer_of, client_received, set_client_condition,
  answered, secret_of, with_secret,
}
use cpp_toolkit.Network.Handshake.Texts.{IsRead, reads, filled}

-- The client once it has taken an answer.
abbrev pub knows : Json → Answer → Client → Option (Client × Outcome × Option ConnectionJob)
knows json answer client =
    with_secret client.sender.use_encrypt_module answer.secret
      (record client { server_id = answer.id; sub_id = answer.sub_id })
    >>= (λ known. some (answered answer.condition known))

pub client_received-knows :
    (json : Json) (answer : Answer) (client : Client)
    → client.sender.condition ≡ waiting
    → IsRead json.answer_text json.parse_answer answer
    → client_received json (to_array (json.answer_text answer)) client ≡ knows json answer client
unfolding client_received
client_received-knows json answer client waits readable =
    rw
      (
        client_received,
        waits,
        reads json.answer_text json.parse_answer answer readable,
        filled (json.answer_text answer) (readable.2),
      )
      refl

pub answered_good :
    (client : Client)
    → client.sender.condition ≡ waiting
    → let (after, outcome, job) = answered true client in
      (after.sender.condition ≡ confirmed)
      × (after.key ≡ client.key)
      × (after.iv ≡ client.iv)
      × (after.encrypt_mode ≡ client.encrypt_mode)
      × (after.sub_id ≡ client.sub_id)
      × (outcome ≡ (true, none))
unfolding answered set_client_condition
answered_good client waits =
    (ground arith, ground arith, ground arith, ground arith, ground arith, ground arith)

-- A client that has taken what a session offers.
abbrev pub taken_from : Session → Client → Client
taken_from session client = record client {
  server_id = session.id;
  sub_id = session.sub_id;
  key = session.key;
  iv = session.iv;
  encrypt_mode = session.encrypt_mode;
}

pub secret_there :
    (session : Session)
    → session.sender.use_encrypt_module ≡ true
    → secret_of session
      ≡ some (record {
        key = some session.key;
        iv = some session.iv;
        encrypt_mode = some session.encrypt_mode;
      })
secret_there session sm = rw sm refl

pub knows_answer :
    (json : Json) (session : Session) (client : Client)
    → client.sender.use_encrypt_module ≡ true
    → session.sender.use_encrypt_module ≡ true
    → knows json (answer_of true session) client ≡ some (answered true (taken_from session client))
unfolding answer_of
knows_answer json session client cm sm =
    let named_by : Client = record client { server_id = session.id; sub_id = session.sub_id } in
    let last : Option Client → Option (Client × Outcome × Option ConnectionJob) =
      λ o. o >>= (λ known. some (answered true known)) in
    ap (λ b. last (with_secret b (secret_of session) named_by)) cm
    ∙ ap (λ s. last (with_secret true s named_by)) (secret_there session sm)
