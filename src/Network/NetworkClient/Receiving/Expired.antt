-- ===== src/Network/NetworkClient/Receiving/Expired.antt =====
-- What becomes of a client that gets a message before it is confirmed.
use cpp_toolkit.Prelude.{
  ℕ, ◌≡◌, refl, ◌∙◌, ap, Bool, true, false, Option, none, some, List, [], ◌∷◌, codes, ◌==◌, nat_eq,
  Bool-cases, inl, inr, eq_of_test,
}
use cpp_toolkit.Thread.Job.{Text}
use cpp_toolkit.Network.DataHandler.{ConnectConditions, confirmed, expired, condition_eq}
use cpp_toolkit.Network.Messages
use cpp_toolkit.Network.Messages.{
  Handled, replies, binary_callback, message_callback, received_binary, received_message,
  received_file,
}
use cpp_toolkit.Network.Handshake.{Json, Client, set_client_condition}
use cpp_toolkit.Network.NetworkSession.Gate.{
  expired_messages, binary_stops, message_stops, file_stops,
}
use cpp_toolkit.Network.NetworkSession.Lines.{reader_condition, test_of_eq}
use cpp_toolkit.Network.NetworkClient.Receiving.{
  Receiver, Reply, answers, with_messages, follow, lent, given_back, late, client_binary,
  client_message, client_file, received_data,
}

-- The answers to data that come one after the other, up to one at which the client throws.
pub serve : Json → (List ℕ → Option Text) → List (ℕ × List ℕ) → Receiver → List Reply
serve json save_temp_path [] receiver = []
serve json save_temp_path ((mode, bytes) ∷ inputs) receiver =
    elim (received_data json save_temp_path mode bytes receiver) [
      | none ↦ []
      | some (receiver', reply) ↦ reply ∷ serve json save_temp_path inputs receiver'
    ]

-- One refusal for each.
pub refusals : List (ℕ × List ℕ) → List Reply
refusals [] = []
refusals (input ∷ inputs) = answers late ∷ refusals inputs

-- The line has expired, by the test of received_data.
abbrev IsOver : Receiver → Type 0
IsOver receiver = (receiver.line.sender.condition == expired) ≡ true

refused :
    (json : Json) (save_temp_path : List ℕ → Option Text) (inputs : List (ℕ × List ℕ))
    (receiver : Receiver)
    → IsOver receiver
    → serve json save_temp_path inputs receiver ≡ refusals inputs
unfolding serve refusals received_data
refused json save_temp_path [] receiver e = refl
refused json save_temp_path ((mode, bytes) ∷ inputs) receiver e =
    rw (serve, received_data, e)
      (ap (◌∷◌ (answers late)) (refused json save_temp_path inputs receiver e))

client_condition :
    (condition : ConnectConditions) (by_itself : Bool) (line : Client)
    → (set_client_condition condition by_itself line).sender.condition ≡ condition
unfolding set_client_condition
client_condition condition by_itself line = elim (Bool-cases (line.sender.condition == condition)) [
  | inl same ↦ rw same (eq_of_test line.sender.condition condition same)
  | inr other ↦
      rw other
        (elim (Bool-cases (condition == expired)) [ inl gone ↦ rw gone refl | inr on ↦ rw on refl ])
]

-- A step that ends with an error text and leaves the line expired.
abbrev Closes : Option (Receiver × Reply) → Type 0
Closes o =
    (after : Receiver) × (text : Text) × (o ≡ some (after, answers (false, some text)))
    × IsOver after

over :
    (receiver : Receiver) → receiver.messages.reader.condition ≡ expired → IsOver (follow receiver)
unfolding follow
over receiver e =
    test_of_eq (follow receiver).line.sender.condition expired
      (client_condition receiver.messages.reader.condition false receiver.line ∙ e)

module _ (receiver : Receiver) (bytes : List ℕ)
    (shut : (receiver.messages.reader.condition == confirmed) ≡ false) where
  gone : (m : Messages.Session) → (expired_messages m).reader.condition ≡ expired
  unfolding expired_messages
  gone m = reader_condition expired m.reader

  binary-Closes : Closes (client_binary bytes receiver)
  unfolding client_binary
  binary-Closes =
      let (text, e) = binary_stops receiver.messages bytes shut in
      let left = expired_messages receiver.messages in
      (
        follow (with_messages left receiver),
        text,
        rw e refl,
        over (with_messages left receiver) (gone receiver.messages),
      )

  message-Closes : Closes (client_message bytes receiver)
  unfolding client_message
  message-Closes =
      let (text, e) = message_stops receiver.messages bytes shut in
      let left = expired_messages receiver.messages in
      (
        follow (with_messages left receiver),
        text,
        rw e refl,
        over (with_messages left receiver) (gone receiver.messages),
      )

  file-Closes :
      (save_temp_path : List ℕ → Option Text) → Closes (client_file save_temp_path bytes receiver)
  unfolding client_file
  file-Closes save_temp_path =
      let (text, e) = file_stops (lent receiver) bytes shut save_temp_path in
      let left = given_back (with_messages (expired_messages (lent receiver)) receiver) in
      (follow left, text, rw e refl, over left (gone (lent receiver)))

-- The data of a binary, a file or a text.
pub data IsContent : ℕ → Type 0 where
  of_binary : IsContent 0
  of_file : IsContent 1
  of_message : IsContent 2

content-Closes :
    (json : Json) (save_temp_path : List ℕ → Option Text) (mode : ℕ) (bytes : List ℕ)
    (receiver : Receiver)
    → (receiver.messages.reader.condition == confirmed) ≡ false
    → (receiver.line.sender.condition == expired) ≡ false
    → IsContent mode
    → Closes (received_data json save_temp_path mode bytes receiver)
unfolding received_data
content-Closes json save_temp_path mode bytes receiver shut on of_binary =
    rw on (binary-Closes receiver bytes shut)
content-Closes json save_temp_path mode bytes receiver shut on of_file =
    rw on (file-Closes receiver bytes shut save_temp_path)
content-Closes json save_temp_path mode bytes receiver shut on of_message =
    rw on (message-Closes receiver bytes shut)

-- A client that is not confirmed, by the condition that its handlers test, and a binary, a file or a text: it
-- calls no callback of binary data, files or texts but ends with an error text, and answers whatever comes afterwards, an answer
-- of its server to its request too, with the error that the line has expired.
pub content_closes :
    (json : Json) (save_temp_path : List ℕ → Option Text) (mode : ℕ) (bytes : List ℕ)
    (inputs : List (ℕ × List ℕ)) (receiver : Receiver)
    → (receiver.messages.reader.condition == confirmed) ≡ false
    → IsContent mode
    → (text : Text) × (serve json save_temp_path ((mode, bytes) ∷ inputs) receiver
        ≡ answers (false, some text) ∷ refusals inputs)
unfolding serve refusals
content_closes json save_temp_path mode bytes inputs receiver shut content =
    elim (Bool-cases (receiver.line.sender.condition == expired)) [
      | inl done ↦ (
        codes "the line has expired",
        refused json save_temp_path ((mode, bytes) ∷ inputs) receiver done,
      )
      | inr on ↦
          let (after, text, e, closed) =
            content-Closes json save_temp_path mode bytes receiver shut on content in
          (
            text,
            rw (serve, e)
                (ap (◌∷◌ (answers (false, some text)))
                  (refused json save_temp_path inputs after closed)),
          )
    ]
