-- ===== src/Network/Handshake/Confirming.antt =====
-- A handshake that comes to its end, with and without the registered key.
use cpp_toolkit.Prelude.{
  ◌+◌, ◌≡◌, refl, ap, ◌∙◌, arith, Bool, true, false, not, Option, some, if◌then◌else◌, bytes_eq,
  eq_refl,
}
use cpp_toolkit.Utilities.Converter.{to_array}
use cpp_toolkit.Thread.Job.{Outcome}
use cpp_toolkit.Network.DataHandler.{waiting, expired, confirmed, condition_eq}
use cpp_toolkit.Network.Handshake.{
  Json, Request, Session, Client, ConnectionJob, answer_of, answer_with, response_connection,
  set_condition, session_received, has_key, with_key, request_of, client_received, answered,
}
use cpp_toolkit.Network.Handshake.Texts.{IsRead, reads, filled}
use cpp_toolkit.Network.Handshake.Answers.{
  named, in_condition, response-Same, response_condition, response_drawn, with_key_id,
  with_key_mode, with_key_module, with_key_sub_id,
}
use cpp_toolkit.Network.Handshake.Knowing.{
  client_received-knows, answered_good, taken_from, knows_answer,
}

-- What a session does with a request, by whether the key is the registered one.
abbrev pub verdict : Json → Bool → Session → Session × Outcome
verdict json good session =
    if not good
    then response_connection json false (set_condition json expired session)
    else response_connection json true (set_condition json confirmed session)

session_received-verdict :
    (json : Json) (request : Request) (session : Session)
    → session.sender.condition ≡ waiting
    → IsRead json.request_text json.parse_request request
    → session_received json (to_array (json.request_text request)) session
      ≡ some (
          verdict json
            (has_key session.registered_key request.registered_key)
            (named request.id session))
unfolding session_received
session_received-verdict json request session waits readable =
    rw
      (
        session_received,
        waits,
        reads json.request_text json.parse_request request readable,
        filled (json.request_text request) (readable.2),
      )
      refl

set_condition_confirmed :
    (json : Json) (session : Session)
    → session.sender.condition ≡ waiting
    → set_condition json confirmed session ≡ in_condition confirmed session
unfolding set_condition
set_condition_confirmed json session waits = ground arith

set_condition_expired :
    (json : Json) (session : Session)
    → session.sender.condition ≡ waiting
    → set_condition json expired session
      ≡ (response_connection json false (in_condition expired session)).0
unfolding set_condition
set_condition_expired json session waits = ground arith

verdict_good :
    (json : Json) (session : Session)
    → session.sender.condition ≡ waiting
    → verdict json true session ≡ response_connection json true (in_condition confirmed session)
verdict_good json session waits =
    ap (response_connection json true) (set_condition_confirmed json session waits)

verdict_bad :
    (json : Json) (session : Session)
    → session.sender.condition ≡ waiting
    → verdict json false session
      ≡ response_connection json false
          (response_connection json false (in_condition expired session)).0
verdict_bad json session waits =
    ap (response_connection json false) (set_condition_expired json session waits)

-- A session that encrypts and waits answers a request without the registered key twice: it draws two keys,
-- one for the answer of disconnected and one for that of received_connection.
pub refuses_twice :
    (json : Json) (request : Request) (session : Session)
    → session.sender.condition ≡ waiting
    → session.sender.use_encrypt_module ≡ true
    → session.encrypt_mode ≡ true
    → has_key session.registered_key request.registered_key ≡ false
    → IsRead json.request_text json.parse_request request
    → (after : Session × Outcome) × (session_received json
          (to_array (json.request_text request))
          session
        ≡ some after)
      × (after.0.drawn ≡ session.drawn + 2)
refuses_twice json request session waits module_there encrypts bad readable =
    let one = in_condition expired (named request.id session) in
    let (condition, id, drawn, mode, same_module) = response-Same json false one in
    let two = (response_connection json false one).0 in
    (
      response_connection json false two,
      session_received-verdict json request session waits readable
          ∙ rw bad (ap some (verdict_bad json (named request.id session) waits)),
      response_drawn json false two (same_module ∙ with_key_module one ∙ module_there)
            (mode ∙ with_key_mode one ∙ encrypts)
          ∙ omega (arith, response_drawn json false one module_there encrypts),
    )

-- A session that waits and reads a request ends confirmed exactly if the request has the registered key as
-- a text, else expired, and bears the id of the request.
pub session_received_lem :
    (json : Json) (request : Request) (session : Session)
    → session.sender.condition ≡ waiting
    → IsRead json.request_text json.parse_request request
    → (after : Session × Outcome) × (session_received json
          (to_array (json.request_text request))
          session
        ≡ some after)
      × (after.0.id ≡ request.id)
      × (after.0.sender.condition
          ≡ (if has_key session.registered_key request.registered_key then confirmed else expired))
session_received_lem json request session waits readable =
    let good = has_key session.registered_key request.registered_key in
    let (its_id, its_condition) = judged good in
    (
      verdict json good (named request.id session),
      session_received-verdict json request session waits readable,
      its_id,
      its_condition,
    )
  where
    judged :
        (good : Bool)
        → ((verdict json good (named request.id session)).0.id ≡ request.id)
          × ((verdict json good (named request.id session)).0.sender.condition
              ≡ (if good then confirmed else expired))
    judged true =
        let one = in_condition confirmed (named request.id session) in
        rw (verdict_good json (named request.id session) waits)
          ((response-Same json true one).1 ∙ with_key_id one, response_condition json true one)
    judged false =
        let one = in_condition expired (named request.id session) in
        let two = (response_connection json false one).0 in
        rw (verdict_bad json (named request.id session) waits) (
          (response-Same json false two).1
              ∙ with_key_id two
              ∙ (response-Same json false one).1
              ∙ with_key_id one,
          response_condition json false two ∙ response_condition json false one,
        )

-- A client with the registered key and a session that waits, of builds with encryption, whose texts are
-- read as they were written: the session takes the request and is confirmed, and its answer has the
-- client confirmed with the sub_id, key, iv and encrypt_mode of the session.
pub handshake :
    (json : Json) (client : Client) (session : Session)
    → client.sender.condition ≡ waiting
    → session.sender.condition ≡ waiting
    → client.sender.use_encrypt_module ≡ true
    → session.sender.use_encrypt_module ≡ true
    → client.registered_key ≡ session.registered_key
    → IsRead json.request_text json.parse_request (request_of client)
    → IsRead json.answer_text json.parse_answer
        (answer_of true (with_key (in_condition confirmed (named client.id session))))
    → let request = request_of client in
      let ready = with_key (in_condition confirmed (named client.id session)) in
      let answer = answer_of true ready in
      (served : Session × Outcome) × (known : Client × Outcome × Option ConnectionJob)
      × (session_received json (to_array (json.request_text request)) session ≡ some served)
      × (served ≡ answer_with (to_array (json.answer_text answer)) ready)
      × (client_received json (to_array (json.answer_text answer)) client ≡ some known)
      × (served.0.sender.condition ≡ confirmed)
      × (known.0.sender.condition ≡ confirmed)
      × (known.0.sub_id ≡ session.sub_id)
      × (known.0.key ≡ ready.key)
      × (known.0.iv ≡ ready.iv)
      × (known.0.encrypt_mode ≡ session.encrypt_mode)
unfolding answer_of request_of response_connection
handshake json client session cw sw cm sm same r a =
    let request = request_of client in
    let waiting_session = named client.id session in
    let one = in_condition confirmed waiting_session in
    let ready = with_key one in
    let answer = answer_of true ready in
    let knowing = taken_from ready client in
    let (condition, key, iv, mode, sub_id, outcome) = answered_good knowing cw in
    let good : has_key session.registered_key (some client.registered_key) ≡ true =
      rw same (eq_refl session.registered_key) in
    (
      response_connection json true one,
      answered true knowing,
      session_received-verdict json request session sw r
          ∙ rw good (ap some (verdict_good json waiting_session sw)),
      refl,
      client_received-knows json answer client cw a
          ∙ knows_answer json ready client cm (with_key_module one ∙ sm),
      response_condition json true one,
      condition,
      sub_id ∙ with_key_sub_id one,
      key,
      iv,
      mode ∙ with_key_mode one,
    )
