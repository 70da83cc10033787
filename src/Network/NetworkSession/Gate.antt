-- ===== src/Network/NetworkSession/Gate.antt =====
-- No data pass a session before a request with the registered key.
use cpp_toolkit.Prelude.{
  ℕ, ◌≡◌, refl, ◌∙◌, ap, arith, true, false, Option, none, some, List, [], ◌∷◌, All, codes, ◌==◌,
  nat_eq, bytes_eq, Bool-cases, inl, inr, eq_of_test,
}
use cpp_toolkit.Utilities.Combiner.{◌>>=◌}
use cpp_toolkit.Thread.Job.{Text, Outcome}
use cpp_toolkit.Network.DataHandler
use cpp_toolkit.Network.DataHandler.{ConnectConditions, expired, confirmed, condition_eq, Reader}
use cpp_toolkit.Network.Messages
use cpp_toolkit.Network.Messages.{received_binary, received_message, received_file}
use cpp_toolkit.Network.Handshake
use cpp_toolkit.Network.Handshake.{Json, session_received}
use cpp_toolkit.Network.NetworkSession.{
  NetworkSession, Reply, answers, received_data, follow, agree, with_messages, lent, given_back,
}
use cpp_toolkit.Network.NetworkSession.Closing.{
  Input, bears_key, IsClosed, Closes, set_condition-IsClosed, received-Closes,
}

-- What a session answers to its inputs, up to one at which it throws or is undefined.
pub serve : Json → (List ℕ → Option Text) → List Input → NetworkSession → List Reply
serve json save_temp_path [] session = []
serve json save_temp_path ((mode, bytes) ∷ inputs) session =
    elim (received_data json save_temp_path mode bytes session) [
      | none ↦ []
      | some (session', reply) ↦ reply ∷ serve json save_temp_path inputs session'
    ]

-- The reply is no call of a callback for binary data, texts or files.
abbrev pub IsAnswer : Reply → Type 0
IsAnswer (answers outcome) = Unit {0}
IsAnswer _ = ⊥

-- Neither the line nor the reader is confirmed.
pub record IsShut (key : Text) (session : NetworkSession) : Type 0 where
  pub line : IsClosed key session.line
  pub reader : (session.messages.reader.condition == confirmed) ≡ false

reader_condition :
    (condition : ConnectConditions) (reader : Reader)
    → (DataHandler.set_condition condition reader).condition ≡ condition
unfolding DataHandler.set_condition
reader_condition condition reader = elim (Bool-cases (reader.condition == condition)) [
  | inl same ↦ rw same (eq_of_test reader.condition condition same)
  | inr other ↦ ground (arith, other)
]

unfoldable pub expired_messages : Messages.Session → Messages.Session
expired_messages m = record m { reader = DataHandler.set_condition expired m.reader }

module _ (m : Messages.Session) (bytes : List ℕ)
    (shut : (m.reader.condition == confirmed) ≡ false) where
  pub binary_stops :
      (text : Text) × (received_binary bytes m
        ≡ some (expired_messages m, Messages.replies (false, some text)))
  unfolding received_binary expired_messages
  binary_stops = (
    codes "cannot handle binary message until receiving confirm message related to connection.",
    rw shut refl,
  )

  pub message_stops :
      (text : Text) × (received_message bytes m
        ≡ some (expired_messages m, Messages.replies (false, some text)))
  unfolding received_message expired_messages
  message_stops = (
    codes "cannot handle normal message until receiving confirm message related to connection.",
    rw shut refl,
  )

  pub file_stops :
      (save_temp_path : List ℕ → Option Text)
      → (text : Text) × (received_file save_temp_path bytes m
          ≡ some (expired_messages m, (false, some text), none))
  unfolding received_file expired_messages
  file_stops save_temp_path = (
    codes "cannot handle file message until receiving confirm message related to connection.",
    rw shut refl,
  )

-- What a step leaves: a session that is shut, and a reply that is no call.
abbrev Passes : Text → Option (NetworkSession × Reply) → Type 0
Passes key none = Unit {0}
Passes key (some (after, reply)) = IsShut key after × IsAnswer reply

module _ (json : Json) (key : Text) (session : NetworkSession) where
  -- A request that leaves its line closed.
  request-Passes :
      (o : Option (Handshake.Session × Outcome))
      → Closes key o
      → Passes key (o >>= (λ r. some (agree (record session { line = r.0 }), answers r.1)))
  request-Passes none closed = tt
  request-Passes (some (line, outcome)) closed = (
    record {
      line = closed;
      reader = rw (reader_condition line.sender.condition session.messages.reader) (closed.0);
    },
    tt,
  )

  -- A session whose reader has expired, once its line follows.
  follow_shut :
      (after : NetworkSession)
      → after.line.registered_key ≡ key
      → after.messages.reader.condition ≡ expired
      → IsShut key (follow json after)
  unfolding follow
  follow_shut after e gone = record {
    line = rw gone (set_condition-IsClosed json key expired after.line refl e);
    reader = rw gone refl;
  }

  lent_reader : (lent session).messages.reader ≡ session.messages.reader
  lent_reader = ground arith

  back_key :
      (after : NetworkSession) → (given_back after).line.registered_key ≡ after.line.registered_key
  back_key after = ground arith

  back_reader :
      (after : NetworkSession) → (given_back after).messages.reader ≡ after.messages.reader
  back_reader after = ground arith

  module _ (save_temp_path : List ℕ → Option Text) (bytes : List ℕ)
      (shut : IsShut key session) where
    binary-Passes : Passes key (received_data json save_temp_path 0 bytes session)
    unfolding received_data expired_messages
    binary-Passes =
        let (text, e) = binary_stops session.messages bytes shut.reader in
        let gone = with_messages (expired_messages session.messages) session in
        rw e (follow_shut gone shut.line.1 (reader_condition expired session.messages.reader), tt)

    message-Passes : Passes key (received_data json save_temp_path 2 bytes session)
    unfolding received_data expired_messages
    message-Passes =
        let (text, e) = message_stops session.messages bytes shut.reader in
        let gone = with_messages (expired_messages session.messages) session in
        rw e (follow_shut gone shut.line.1 (reader_condition expired session.messages.reader), tt)

    file-Passes : Passes key (received_data json save_temp_path 1 bytes session)
    unfolding received_data expired_messages
    file-Passes =
        let (text, e) =
          file_stops (lent session).messages bytes (rw lent_reader shut.reader) save_temp_path in
        let gone = with_messages (expired_messages (lent session).messages) session in
        rw e (
          follow_shut (given_back gone) (back_key gone ∙ shut.line.1) (
              ap (λ reader. reader.condition) (back_reader gone)
              ∙ reader_condition expired (lent session).messages.reader),
          tt,
        )

    connection-Passes :
        bears_key json key (3, bytes) ≡ false
        → Passes key (received_data json save_temp_path 3 bytes session)
    unfolding received_data
    connection-Passes b =
        request-Passes (session_received json bytes session.line)
          (received-Closes json key bytes session.line shut.line b)

  unmatched-Passes :
      (save_temp_path : List ℕ → Option Text) (mode : ℕ) (bytes : List ℕ)
      → IsShut key session
      → (mode == 3) ≡ false
      → (mode == 0) ≡ false
      → (mode == 2) ≡ false
      → (mode == 1) ≡ false
      → Passes key (received_data json save_temp_path mode bytes session)
  unfolding received_data
  unmatched-Passes save_temp_path mode bytes shut h3 h0 h2 h1 = rw (h3, h0, h2, h1) (shut, tt)

  -- Any message but a request with the key.
  received-Passes :
      (save_temp_path : List ℕ → Option Text) (mode : ℕ) (bytes : List ℕ)
      → IsShut key session
      → bears_key json key (mode, bytes) ≡ false
      → Passes key (received_data json save_temp_path mode bytes session)
  received-Passes save_temp_path mode bytes shut b = elim (Bool-cases (mode == 3)) [
    | inl h ↦
        at_mode 3 h (connection-Passes save_temp_path bytes shut (rw (eq_of_test mode 3 h) at b))
    | inr h3 ↦ elim (Bool-cases (mode == 0)) [
      | inl h ↦ at_mode 0 h (binary-Passes save_temp_path bytes shut)
      | inr h0 ↦ elim (Bool-cases (mode == 2)) [
        | inl h ↦ at_mode 2 h (message-Passes save_temp_path bytes shut)
        | inr h2 ↦ elim (Bool-cases (mode == 1)) [
          | inl h ↦ at_mode 1 h (file-Passes save_temp_path bytes shut)
          | inr h1 ↦ unmatched-Passes save_temp_path mode bytes shut h3 h0 h2 h1
        ]
      ]
    ]
  ]
    where
      at_mode :
          (k : ℕ)
          → (mode == k) ≡ true
          → Passes key (received_data json save_temp_path k bytes session)
          → Passes key (received_data json save_temp_path mode bytes session)
      at_mode k h passes = rw (eq_of_test mode k h) passes

-- A session that is not confirmed, and inputs none of which is a request with its registered key: whatever
-- the modes and the data, it calls none of its callbacks for binary data, texts and files, and each of its replies is a plain result.
pub serve-IsAnswer :
    (json : Json) (save_temp_path : List ℕ → Option Text) (inputs : List Input) (key : Text)
    (session : NetworkSession)
    → IsShut key session
    → All (λ input. bears_key json key input ≡ false) inputs
    → All IsAnswer (serve json save_temp_path inputs session)
unfolding serve
serve-IsAnswer json save_temp_path [] key session shut bs = tt
serve-IsAnswer json save_temp_path ((mode, bytes) ∷ inputs) key session shut (b, bs) =
    go (received_data json save_temp_path mode bytes session) refl
      (received-Passes json key session save_temp_path mode bytes shut b)
      (λ after inside. serve-IsAnswer json save_temp_path inputs key after inside bs)
  where
    go :
        (o : Option (NetworkSession × Reply))
        → received_data json save_temp_path mode bytes session ≡ o
        → Passes key o
        → ((after : NetworkSession)
            → IsShut key after
            → All IsAnswer (serve json save_temp_path inputs after))
        → All IsAnswer (serve json save_temp_path ((mode, bytes) ∷ inputs) session)
    go none e passes rest = rw (serve, e) tt
    go (some (after, reply)) e (inside, answer) rest = rw (serve, e) (answer, rest after inside)
