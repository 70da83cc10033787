-- ===== src/Network/NetworkClient/Receiving.antt =====
-- received_data of Network/NetworkClient.cpp, its handlers of messages, and received_files. The handlers have
-- the text of those of NetworkSession.cpp, which are in Network/Messages, but their calls are without an id
-- and a sub_id; received_connection is that of Network/Handshake. A condition that the line and the reader
-- share is set in both, and the thread pool that the file manager has too is lent to it for a call.
pub mod Expired
use cpp_toolkit.Prelude.{
  ℕ, ◌≡◌, refl, ◌∙◌, ap, arith, Bool, true, false, not, ◌&&◌, ◌||◌, Option, none, some, List, [],
  ◌∷◌, codes, if◌then◌else◌, ◌==◌, nat_eq, Bool-cases, ◌⊎◌, inl, inr, eq_of_test,
}
use cpp_toolkit.Utilities.Combiner.{◌>>=◌}
use cpp_toolkit.Thread.Job.{Text, Outcome}
use cpp_toolkit.Thread.ThreadPool.{ThreadPool}
use cpp_toolkit.Network.DataHandler
use cpp_toolkit.Network.DataHandler.{ConnectConditions, confirmed, expired, condition_eq}
use cpp_toolkit.Network.Messages
use cpp_toolkit.Network.Messages.{
  Handled, replies, binary_callback, message_callback, received_binary, received_message,
  received_file,
}
use cpp_toolkit.Network.Handshake.{Json, Client, client_received, set_client_condition}

-- `line` is what the handshake uses of a client; `messages` its reader, its file manager, and which of its
-- callbacks are set.
pub record Receiver : Type 0 where
  pub line : Client
  pub messages : Messages.Session
  pub received_files_callback : Bool

-- A result, or the call of a callback with its arguments.
pub data Reply : Type 0 where
  answers : Outcome → Reply
  calls_binary : Text → List ℕ → Reply
  calls_message : Text → Reply
  calls_file : Outcome → Text × Text → Reply

abbrev pub reply_of : Handled → Reply
reply_of (replies outcome) = answers outcome
reply_of (binary_callback text bytes) = calls_binary text bytes
reply_of (message_callback text) = calls_message text

abbrev pub with_messages : Messages.Session → Receiver → Receiver
with_messages messages receiver = record receiver { messages = messages }

-- The line is brought into the condition of the reader, and the reader into that of the line.
unfoldable pub follow : Receiver → Receiver
follow receiver = record receiver {
  line = set_client_condition receiver.messages.reader.condition false receiver.line;
}

abbrev pub agree : Receiver → Receiver
agree receiver = record receiver {
  messages = record receiver.messages {
    reader = DataHandler.set_condition receiver.line.sender.condition receiver.messages.reader;
  };
}

-- What the file manager's pool is while it is lent the client's, and the client's afterwards.
abbrev pub pool_of : Option ThreadPool → Option ThreadPool → Option ThreadPool
pool_of theirs ours = elim theirs [ none ↦ none | some pool ↦ ours ]

abbrev pub lent : Receiver → Messages.Session
lent receiver = record receiver.messages {
  file_manager = record receiver.messages.file_manager {
    thread_pool =
        pool_of receiver.messages.file_manager.thread_pool receiver.line.sender.thread_pool;
  };
}

abbrev pub given_back : Receiver → Receiver
given_back receiver = record receiver {
  line = record receiver.line {
    sender = record receiver.line.sender {
      thread_pool = elim receiver.messages.file_manager.thread_pool [
        | none ↦ receiver.line.sender.thread_pool
        | some pool ↦ some pool
      ];
    };
  };
}

unfoldable pub client_binary : List ℕ → Receiver → Option (Receiver × Reply)
unfolding follow
client_binary bytes receiver =
    received_binary bytes receiver.messages
    >>= (λ r. some (follow (with_messages r.0 receiver), reply_of r.1))

unfoldable pub client_message : List ℕ → Receiver → Option (Receiver × Reply)
unfolding follow
client_message bytes receiver =
    received_message bytes receiver.messages
    >>= (λ r. some (follow (with_messages r.0 receiver), reply_of r.1))

unfoldable pub client_file : (List ℕ → Option Text) → List ℕ → Receiver → Option (Receiver × Reply)
unfolding follow
client_file save_temp_path bytes receiver =
    received_file save_temp_path bytes (lent receiver) >>= (λ r. some (
      follow (given_back (with_messages r.0 receiver)),
      elim r.2 [ none ↦ answers r.1 | some told ↦ calls_file r.1 told ],
    ))

abbrev pub late : Outcome
late = (false, some (codes "the line has expired"))

-- received_data, with the code of the mode. `none`: it throws, or is undefined. The job that
-- received_connection pushes is in the thread pool.
unfoldable pub received_data :
    Json → (List ℕ → Option Text) → ℕ → List ℕ → Receiver → Option (Receiver × Reply)
unfolding client_binary client_message client_file
received_data json save_temp_path mode bytes receiver =
    if receiver.line.sender.condition == expired
    then some (receiver, answers late)
    else if mode == 3
    then (client_received json bytes receiver.line
        >>= (λ r. some (agree (record receiver { line = r.0 }), answers r.1)))
    else if mode == 0
    then client_binary bytes receiver
    else if mode == 2
    then client_message bytes receiver
    else if mode == 1
    then client_file save_temp_path bytes receiver
    else some (receiver, answers (false, some (codes "there is no matched mode")))

-- received_files, which the file manager calls: the arguments of received_files_callback_, or an error.
unfoldable pub received_files :
    List Text → List (Text × Text) → Receiver → Option (List Text × List (Text × Text)) × Outcome
received_files failures successes receiver =
    if not receiver.received_files_callback
    then (none, (false, some (codes "there is no callback to handle received files")))
    else (some (failures, successes), (true, none))
