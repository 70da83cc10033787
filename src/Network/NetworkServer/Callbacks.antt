-- ===== src/Network/NetworkServer/Callbacks.antt =====
-- received_binary, received_message, received_file and received_files of Network/NetworkServer.cpp, which its
-- sessions call, and a message that goes from a client to the callback of the server's user. `Some` callback
-- is a function that has been set.
use cpp_toolkit.Prelude.{
  ℕ, ◌+◌, ◌<◌, ◌^◌, ◌≡◌, refl, ◌∙◌, ap, sym, true, false, Option, none, some, List, codes, nat_eq,
  is_empty, length,
}
use cpp_toolkit.Utilities.Converter.{to_array, has_bom}
use cpp_toolkit.Utilities.Converter.Bytes.{to_string-to_array}
use cpp_toolkit.Thread.Job.{Text, Outcome}
use cpp_toolkit.Network.DataHandler.{confirmed, condition_eq}
use cpp_toolkit.Network.Messages
use cpp_toolkit.Network.Messages.{
  message, envelope, hands_over, receiving_job, message_callback, binary_callback, received_message,
}
use cpp_toolkit.Network.Stages.{Handler, encrypt_job}
use cpp_toolkit.Network.Stages.Chain.{TakesBack, incoming, outgoing, stages_hand_over}
use cpp_toolkit.Network.Handshake.{Json}
use cpp_toolkit.Network.NetworkSession.{
  NetworkSession, Reply, answers, calls_binary, calls_message, calls_file, received_data,
}
use cpp_toolkit.Network.NetworkSession.Lines.{followed}

-- The callbacks of the server's user.
pub record Callbacks : Type 0 where
  pub binary : Option (Text → Text → Text → List ℕ → Outcome)
  pub message : Option (Text → Text → Text → Outcome)
  pub file : Option (Text → Text → Text → List ℕ → Outcome)
  pub files : Option (Text → Text → List Text → List (Text × Text) → Outcome)

unfoldable pub received_binary : Callbacks → Text → Text → Text → List ℕ → Outcome
received_binary callbacks id sub_id text bytes = elim callbacks.binary [
  | none ↦ (false, some (codes "there is no callback to handle received binary"))
  | some call ↦ call id sub_id text bytes
]

unfoldable pub server_message : Callbacks → Text → Text → Text → Outcome
server_message callbacks id sub_id text = elim callbacks.message [
  | none ↦ (false, some (codes "there is no callback to handle received message"))
  | some call ↦ call id sub_id text
]

unfoldable pub received_file : Callbacks → Text → Text → Text → List ℕ → Outcome
received_file callbacks id sub_id text file_path = elim callbacks.file [
  | none ↦ (false, some (codes "there is no callback to handle received file"))
  | some call ↦ call id sub_id text file_path
]

unfoldable pub received_files : Callbacks → Text → Text → List Text → List (Text × Text) → Outcome
received_files callbacks id sub_id failures successes = elim callbacks.files [
  | none ↦ (false, some (codes "there is no callback to handle received files"))
  | some call ↦ call id sub_id failures successes
]

-- What a reply of a session comes to, its callbacks being those that wait_connection binds. The result of
-- received_file is dropped.
unfoldable pub bound : Callbacks → Reply → Outcome
unfolding received_binary server_message
bound callbacks (answers outcome) = outcome
bound callbacks (calls_binary id sub_id text bytes) = received_binary callbacks id sub_id text bytes
bound callbacks (calls_message id sub_id text) = server_message callbacks id sub_id text
bound callbacks (calls_file id sub_id outcome told) = outcome

-- A session that is confirmed and calls back.
pub record Talks (session : NetworkSession) : Type 0 where
  pub line_confirmed : session.line.sender.condition ≡ confirmed
  pub reader_confirmed : session.messages.reader.condition ≡ confirmed
  pub message_set : session.messages.received_message_callback ≡ true

filled : (text : Text) → is_empty text ≡ false → is_empty (to_array text) ≡ false
unfolding to_array
filled text h = h

message_called :
    (m : Messages.Session) (text : Text)
    → m.reader.condition ≡ confirmed
    → m.received_message_callback ≡ true
    → is_empty text ≡ false
    → has_bom text ≡ false
    → received_message (to_array text) m ≡ some (m, message_callback text)
unfolding received_message
message_called m text c set full plain =
    rw (received_message, c, filled text full, set, (to_string-to_array text).1 plain) refl

session_calls :
    (json : Json) (save_temp_path : List ℕ → Option Text) (session : NetworkSession) (text : Text)
    → Talks session
    → is_empty text ≡ false
    → has_bom text ≡ false
    → received_data json save_temp_path 2 (to_array text) session
      ≡ some (session, calls_message session.line.id session.line.sub_id text)
unfolding received_data
session_calls json save_temp_path session text talks full plain =
    rw (message_called session.messages text talks.reader_confirmed talks.message_set full plain) (
      ap (λ s. some (s, calls_message session.line.id session.line.sub_id text))
        (followed json session (talks.line_confirmed ∙ sym talks.reader_confirmed)))

-- A text that send_message packs, taken through the stages of a sender and of a receiver with the same
-- codecs, is handed by ReceivingJob to a confirmed session, which calls the server's received_message,
-- and that the callback of the server's user with the id and the sub_id of the session and the text: where
-- each codec takes back what it gives or refuses both ways, the text is not empty, has no byte order mark,
-- and is shorter than 2 ^ 64 - 17 bytes.
pub message_arrives :
    (h : Handler) (json : Json) (save_temp_path : List ℕ → Option Text) (session : NetworkSession)
    (callbacks : Callbacks) (call : Text → Text → Text → Outcome) (text : Text)
    → Talks session
    → callbacks.message ≡ some call
    → is_empty text ≡ false
    → has_bom text ≡ false
    → length (to_array text) + 17 < 2 ^ 64
    → TakesBack h.encryptor (envelope message (to_array text))
    → TakesBack h.compressor (envelope message (to_array text))
    → TakesBack h.compressor (encrypt_job h (envelope message (to_array text))).data_
    → (reply : Reply) × (receiving_job true (
          incoming h.use_encrypt_module h
            (outgoing h.use_encrypt_module h (envelope message (to_array text))))
        ≡ some (hands_over 2 (to_array text)))
      × (received_data json save_temp_path 2 (to_array text) session ≡ some (session, reply))
      × (bound callbacks reply ≡ call session.line.id session.line.sub_id text)
unfolding bound
message_arrives h json save_temp_path session callbacks call text talks set full plain room e c c' =
    (
      calls_message session.line.id session.line.sub_id text,
      stages_hand_over h message (to_array text) refl (filled text full) room e c c',
      session_calls json save_temp_path session text talks full plain,
      rw (set, server_message) refl,
    )
