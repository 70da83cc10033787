-- ===== src/Tests/OfHandshake.antt =====
-- The theorems on the handshake at concrete inputs, with texts that hold the fields one behind the other.
use cpp_toolkit.Prelude.{
  ◌≡◌, refl, true, false, Option, none, some, [], ◌∷◌, ◌++◌, codes, if◌then◌else◌,
}
use cpp_toolkit.Utilities.Converter.{to_array, has_bom}
use cpp_toolkit.Thread.Job.{Text, Outcome}
use cpp_toolkit.Network.DataHandler.{waiting, confirmed, expired}
use cpp_toolkit.Network.Messages.{Sender}
use cpp_toolkit.Network.Handshake.{
  Json, Request, Answer, Session, Client, ConnectionJob, session_received, client_received,
  with_key, answer_with, answer_of, request_of, has_key,
}
use cpp_toolkit.Network.Handshake.Texts.{IsRead}
use cpp_toolkit.Network.Handshake.Answers.{named, in_condition}
use cpp_toolkit.Network.Handshake.Confirming.{session_received_lem, handshake}

-- The ids and keys have one character each.
abbrev request_text : Request → Text
request_text r = 123 ∷ r.id ++ elim r.registered_key [ none ↦ [] | some key ↦ key ]

abbrev parse_request : Text → Option Request
parse_request (b ∷ id ∷ key ∷ []) =
    some (record { id = id ∷ []; sub_id = []; registered_key = some (key ∷ []); condition = true })
parse_request _ = none

abbrev answer_text : Answer → Text
answer_text a = elim a.secret [
  | none ↦ []
  | some s ↦
      123 ∷ a.id
      ++ a.sub_id
      ++ elim s.key [ none ↦ [] | some k ↦ k ]
      ++ elim s.iv [ none ↦ [] | some v ↦ v ]
]

abbrev parse_answer : Text → Option Answer
parse_answer (b ∷ id ∷ sub_id ∷ key ∷ iv ∷ []) = some (record {
  id = id ∷ [];
  sub_id = sub_id ∷ [];
  secret = some (record { key = some (key ∷ []); iv = some (iv ∷ []); encrypt_mode = some true });
  condition = true;
})
parse_answer _ = none

abbrev a_json : Json
a_json = record {
  request_text = request_text;
  answer_text = answer_text;
  parse_request = parse_request;
  parse_answer = parse_answer;
}

abbrev a_line : Sender
a_line = record {
  condition = waiting;
  socket = true;
  thread_pool = none;
  use_encrypt_module = true;
}

abbrev a_session : Session
a_session = record {
  sender = a_line;
  id = codes "unauthorized_client";
  sub_id = codes "s";
  registered_key = codes "k";
  encrypt_mode = true;
  key = [];
  iv = [];
  keys = λ n. (codes "x", codes "y");
  drawn = 0;
  callback = none;
}

abbrev a_client : Client
a_client = record {
  sender = a_line;
  id = codes "c";
  sub_id = [];
  server_id = [];
  registered_key = codes "k";
  encrypt_mode = false;
  key = [];
  iv = [];
  callback = true;
  told = [];
}

abbrev ready : Session
ready = with_key (in_condition confirmed (named (codes "c") a_session))

request-IsRead : IsRead request_text parse_request (request_of a_client)
unfolding request_of has_bom
request-IsRead = (refl, refl, refl)

answer-IsRead : IsRead answer_text parse_answer (answer_of true ready)
unfolding answer_of has_bom
answer-IsRead = (refl, refl, refl)

handshake_example :
    let answer = answer_of true ready in
    (served : Session × Outcome) × (known : Client × Outcome × Option ConnectionJob)
    × (session_received a_json (to_array (request_text (request_of a_client))) a_session
        ≡ some served)
    × (served ≡ answer_with (to_array (answer_text answer)) ready)
    × (client_received a_json (to_array (answer_text answer)) a_client ≡ some known)
    × (served.0.sender.condition ≡ confirmed)
    × (known.0.sender.condition ≡ confirmed)
    × (known.0.sub_id ≡ codes "s")
    × (known.0.key ≡ codes "x")
    × (known.0.iv ≡ codes "y")
    × (known.0.encrypt_mode ≡ true)
handshake_example =
    handshake a_json a_client a_session refl refl refl refl refl request-IsRead answer-IsRead

-- A request with another key.
abbrev bad_request : Request
bad_request = record {
  id = codes "c";
  sub_id = [];
  registered_key = some (codes "z");
  condition = true;
}

bad-IsRead : IsRead request_text parse_request bad_request
unfolding has_bom
bad-IsRead = (refl, refl, refl)

session_received_lem_example :
    (after : Session × Outcome) × (session_received a_json
        (to_array (request_text bad_request))
        a_session
      ≡ some after)
    × (after.0.id ≡ codes "c")
    × (after.0.sender.condition
        ≡ (if has_key (codes "k") (some (codes "z")) then confirmed else expired))
session_received_lem_example = session_received_lem a_json bad_request a_session refl bad-IsRead
