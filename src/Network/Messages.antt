-- ===== src/Network/Messages.antt =====
-- The messages of a connection, from Network/DataModes.h, DataHandler.cpp (send, send_binary, send_message),
-- ReceivingJob.cpp, FileSendingJob.cpp and NetworkSession.cpp (the received_ functions): how the
-- sender builds them and the receiver takes them apart. A callback that the library's user has set is
-- not called here: it is a value of Handled, with its arguments. Reading a file and writing a
-- temporary one are parameters. Log lines are left out, and an error text is given by its fixed part.
pub mod RoundTrip
pub mod Files
use cpp_toolkit.Prelude.{
  ℕ, ◌≤◌, ◌≡◌, arith, Bool, true, false, not, Option, none, some, List, [], ◌∷◌, ◌++◌, codes,
  if◌then◌else◌, ◌==◌, nat_eq, Eq, rank_eq, length, is_empty, leb,
}
use cpp_toolkit.Prelude.Bytes.{le_bytes, le_value}
use cpp_toolkit.Utilities.Combiner.{append, divide, ◌>>=◌}
use cpp_toolkit.Utilities.Converter.{to_array, to_string}
use cpp_toolkit.Thread.JobPriorities.{high, normal}
use cpp_toolkit.Thread.Job.{Job, Text, Outcome, make_data_job}
use cpp_toolkit.Thread.ThreadPool.{ThreadPool, push_job}
use cpp_toolkit.Network.DataHandler.{
  Reader, ConnectConditions, confirmed, expired, condition_eq, set_condition,
}
use cpp_toolkit.Network.FileManager
use cpp_toolkit.Network.FileManager.{FileManager}

pub data DataModes : Type 0 where
  binary file message connection : DataModes

abbrev pub mode_code : DataModes → ℕ
mode_code binary = 0
mode_code file = 1
mode_code message = 2
mode_code connection = 3

pub mode_code_inj : (a b : DataModes) → mode_code a ≡ mode_code b → a ≡ b
mode_code_inj a b h = ground arith

instance abbrev pub mode_eq : Eq DataModes
mode_eq = rank_eq mode_code mode_code_inj

pub data FileModes : Type 0 where
  start success failure : FileModes

abbrev pub file_code : FileModes → ℕ
file_code start = 0
file_code success = 1
file_code failure = 2

-- What send puts on the wire: the mode and the data, one field each.
unfoldable pub envelope : DataModes → List ℕ → List ℕ
envelope mode bytes = append (append [] (mode_code mode ∷ [])) bytes

-- What send uses of its DataHandler. `use_encrypt_module` is the build's switch.
pub record Sender : Type 0 where
  pub condition : ConnectConditions
  pub socket : Bool
  pub thread_pool : Option ThreadPool
  pub use_encrypt_module : Bool

abbrev pub stage_job : Bool → DataModes → List ℕ → Job
stage_job use_encrypt_module mode sending_data =
    if not use_encrypt_module
    then make_data_job high sending_data (codes "compress_message") true
    else if mode == connection
    then make_data_job high sending_data (codes "compress_message") true
    else make_data_job normal sending_data (codes "encrypt_message") true

unfoldable pub send : DataModes → List ℕ → Sender → Sender × Outcome
unfolding envelope
send mode bytes sender =
    if not sender.socket
    then (sender, (false, some (codes "cannot send a message by null socket")))
    else elim sender.thread_pool [
      | none ↦ (sender, (false, some (codes "cannot send a message by null thread pool")))
      | some pool ↦
          if is_empty bytes
          then (sender, (false, some (codes "cannot send a message by null data")))
          else let job = stage_job sender.use_encrypt_module mode (envelope mode bytes) in
            let (pool', outcome, notified) = push_job (some job) pool in
            (record sender { thread_pool = some pool' }, outcome)
    ]

-- The data of a binary message: the text and the bytes.
unfoldable pub binary_body : List ℕ → Text → List ℕ
binary_body bytes text = append (append [] (to_array text)) bytes

unfoldable pub send_binary : List ℕ → Text → Sender → Sender × Outcome
unfolding send binary_body
send_binary bytes text sender =
    if not (sender.condition == confirmed)
    then (sender, (false, some (codes "cannot send binary due to connect condition")))
    else send binary (binary_body bytes text) sender

unfoldable pub send_message : Text → Sender → Sender × Outcome
unfolding send to_array
send_message text sender =
    if not (sender.condition == confirmed)
    then (sender, (false, some (codes "cannot send binary due to connect condition")))
    else send message (to_array text) sender

-- ReceivingJob::working: a result, or a call of the receiving callback with the mode's code.
pub data Received : Type 0 where
  refuses : Outcome → Received
  hands_over : ℕ → List ℕ → Received

abbrev pub received_of : List ℕ → List ℕ → Received
received_of (mode ∷ []) (x ∷ array_data) = hands_over mode (x ∷ array_data)
received_of (mode ∷ []) [] =
    refuses (false, some (codes "cannot complete ReceivingJob with empty data"))
received_of _ array_data =
    refuses (false, some (codes "cannot complete ReceivingJob with null data mode"))

-- `none` is undefined behaviour, of divide.
unfoldable pub receiving_job : Bool → List ℕ → Option Received
receiving_job callback bytes =
    if not callback
    then some (refuses (false, some (codes "cannot complete ReceivingJob with null callback")))
    else if is_empty bytes
    then some (refuses (false, some (codes "cannot complete ReceivingJob with null data")))
    else (divide bytes 0 >>= λ mode_data.
        divide bytes mode_data.1 >>= λ array_data. some (received_of mode_data.0 array_data.0))

-- What FileSendingJob::working makes of its data, once they are not empty. `read` is what File::read_bytes gives
-- for a path.
unfoldable pub file_message : (Text → Option (List ℕ)) → List ℕ → Option (List ℕ)
file_message read file_information =
    (divide file_information 0 >>= λ guid. divide file_information guid.1 >>= λ file_index.
    divide file_information file_index.1 >>= λ file_path.
    divide file_information file_path.1 >>= λ text. some (elim (read (to_string file_path.0)) [
      | none ↦
          append (append (append (append [] guid.0) (file_code failure ∷ [])) file_index.0) text.0
      | some source_data ↦
          append
            (append (append (append (append [] guid.0) (file_code success ∷ [])) file_index.0)
              text.0)
            source_data
    ]))

-- FileSendingJob::working: a result, or the call of sending_callback_ with the mode File and these data.
-- `callback` tells whether it is set.
pub data Sent : Type 0 where
  rejects : Outcome → Sent
  sends : List ℕ → Sent

unfoldable pub file_sending_job : Bool → (Text → Option (List ℕ)) → List ℕ → Option Sent
unfolding file_message
file_sending_job callback read file_information =
    if not callback
    then some (rejects (false, some (codes "cannot complete FileSendingJob with null callback")))
    else if is_empty file_information
    then some (rejects (false, some (codes "cannot complete FileSendingJob with null data")))
    else (file_message read file_information >>= λ bytes. some (sends bytes))

-- What send_files packs for a FileSendingJob; `index` is a size_t.
unfoldable pub file_information : Text → ℕ → Text → Text → List ℕ
file_information guid index file_path text =
    append (append (append (append [] (to_array guid)) (le_bytes 8 index)) (to_array file_path))
      (to_array text)

-- The message that announces the files.
unfoldable pub start_message : Text → ℕ → List ℕ
start_message guid size =
    append (append (append [] (to_array guid)) (file_code start ∷ [])) (le_bytes 8 size)

-- NetworkSession: `reader` is its DataHandler's reading side; the callbacks are set or null.
pub record Session : Type 0 where
  pub reader : Reader
  pub file_manager : FileManager
  pub received_binary_callback : Bool
  pub received_message_callback : Bool
  pub received_file_callback : Bool

-- A result, or the call of a callback with its arguments behind id() and sub_id().
pub data Handled : Type 0 where
  replies : Outcome → Handled
  binary_callback : Text → List ℕ → Handled
  message_callback : Text → Handled

abbrev pub unconfirmed : Text → Session → Session × Handled
unconfirmed text session =
    (record session { reader = set_condition expired session.reader }, replies (false, some text))

abbrev pub binary_handled : Session → Text → List ℕ → Handled
binary_handled session text [] = replies (false, some (codes "cannot handle empty binary message."))
binary_handled session text (x ∷ bytes) =
    if session.received_binary_callback
    then binary_callback text (x ∷ bytes)
    else replies (false, some (codes "there is no callback to handle binary data"))

unfoldable pub received_binary : List ℕ → Session → Option (Session × Handled)
received_binary bytes session =
    if not (session.reader.condition == confirmed)
    then some (
        unconfirmed
          (codes
            "cannot handle binary message until receiving confirm message related to connection.")
          session)
    else if is_empty bytes
    then some (session, replies (false, some (codes "cannot handle empty message.")))
    else (divide bytes 0 >>= λ text. divide bytes text.1 >>= λ binary_data.
        some (session, binary_handled session (to_string text.0) binary_data.0))

unfoldable pub received_message : List ℕ → Session → Option (Session × Handled)
received_message bytes session =
    if not (session.reader.condition == confirmed)
    then some (
        unconfirmed
          (codes
            "cannot handle normal message until receiving confirm message related to connection.")
          session)
    else if is_empty bytes
    then some (session, replies (false, some (codes "cannot handle empty message.")))
    else if not session.received_message_callback
    then some (session, replies (false, some (codes "there is no callback to handle message data")))
    else some (session, message_callback (to_string bytes))

-- What received_file does with its fields: the mode, the index or count, the text, the file's bytes.
-- The path and the text go to received_file_callback_ if it is set: the second result.
unfoldable pub file_handled :
    (List ℕ → Option Text)
    → Text
    → ℕ
    → ℕ
    → Text
    → List ℕ
    → Session
    → Option (Session × Outcome × Option (Text × Text))
file_handled save_temp_path guid mode count text file_data session =
    let m = session.file_manager in
    if mode == 0
    then (let (m', outcome) = FileManager.start guid count m in
        some (record session { file_manager = m' }, outcome, none))
    else if mode == 2
    then (FileManager.failure guid text m >>= λ r.
        some (record session { file_manager = r.0 }, r.1, none))
    else elim (save_temp_path file_data) [
      | none ↦
          (FileManager.failure guid text m >>= λ r.
          some (record session { file_manager = r.0 }, r.1, none))
      | some path ↦
          (FileManager.success guid text path m >>= λ r. some (
            record session { file_manager = r.0 },
            r.1,
            (if session.received_file_callback then some (text, path) else none),
          ))
    ]

-- file_mode[0], and a copy of the index into a size_t: `none` where they leave their memory.
abbrev pub first_byte : List ℕ → Option ℕ
first_byte [] = none
first_byte (x ∷ xs) = some x

abbrev pub size_of_bytes : List ℕ → Option ℕ
size_of_bytes bytes = if leb (length bytes) 8 then some (le_value bytes) else none

unfoldable pub received_file :
    (List ℕ → Option Text) → List ℕ → Session → Option (Session × Outcome × Option (Text × Text))
received_file save_temp_path bytes session =
    if not (session.reader.condition == confirmed)
    then some (
      record session { reader = set_condition expired session.reader },
      (
        false,
        some (
            codes
              "cannot handle file message until receiving confirm message related to connection."),
      ),
      none,
    )
    else if is_empty bytes
    then some (session, (false, some (codes "cannot handle empty file message.")), none)
    else (divide bytes 0 >>= λ guid. divide bytes guid.1 >>= λ file_mode.
        divide bytes file_mode.1 >>= λ file_index. size_of_bytes file_index.0 >>= λ count.
        first_byte file_mode.0 >>= λ mode.
        if mode == 0
        then file_handled save_temp_path (to_string guid.0) mode count [] [] session
        else (divide bytes file_index.1 >>= λ text.
            if mode == 2
            then file_handled save_temp_path (to_string guid.0) mode count (to_string text.0) []
                session
            else (divide bytes text.1 >>= λ file_data.
                file_handled save_temp_path (to_string guid.0) mode count (to_string text.0)
                  file_data.0 session)))
