-- ===== src/Network/NetworkSession.antt =====
-- Network/NetworkSession.h and NetworkSession.cpp as a whole: the life of a session and what it does with
-- the messages that ReceivingJob hands to received_data. Its line, what the handshake uses of it, is that
-- of Network/Handshake; its reads are those of Network/DataHandler; its messages and its file manager those
-- of Network/Messages. A condition and a socket that these share are set in both: `follow` and `expire` are
-- the call of condition(), whose disconnected answers on the line.
pub mod Closing
pub mod Gate
pub mod Lines
pub mod Lifecycle
use cpp_toolkit.Prelude.{
  ℕ, zero, suc, Bool, true, false, not, ◌&&◌, ◌||◌, Option, none, some, List, [], ◌∷◌, ◌++◌, codes,
  if◌then◌else◌, ◌==◌, nat_eq,
}
use cpp_toolkit.Utilities.Combiner.{◌>>=◌}
use cpp_toolkit.Thread.Job.{Files, Text, Outcome}
use cpp_toolkit.Thread.ThreadWorker.{ThreadWorker}
use cpp_toolkit.Thread.ThreadPool
use cpp_toolkit.Thread.ThreadPool.{ThreadPool}
use cpp_toolkit.Network.DataHandler
use cpp_toolkit.Network.DataHandler.{
  ConnectConditions, unconnected, waiting, expired, condition_eq, Reader, idle, is_open,
  read_start_code, complete,
}
use cpp_toolkit.Network.FileManager.{FileManager}
use cpp_toolkit.Network.Messages
use cpp_toolkit.Network.Messages.{
  Handled, replies, binary_callback, message_callback, received_binary, received_message,
  received_file,
}
use cpp_toolkit.Network.Handshake
use cpp_toolkit.Network.Handshake.{Json, session_received, set_condition}
use cpp_toolkit.Network.NetworkClient.{handler_pool, handler_workers}

-- received_files_callback_ is set or null.
pub record NetworkSession : Type 0 where
  pub line : Handshake.Session
  pub messages : Messages.Session
  pub received_files_callback : Bool
  pub high_priority_count : ℕ
  pub normal_priority_count : ℕ
  pub low_priority_count : ℕ

-- The tags and the buffer of the constructor of DataHandler.
unfoldable pub make_reader : Reader
make_reader = record {
  condition = unconnected;
  socket = none;
  thread_pool = false;
  buffer_size = 1024;
  start_code_tag = 253 ∷ 253 ∷ 253 ∷ 253 ∷ [];
  end_code_tag = 252 ∷ 252 ∷ 252 ∷ 252 ∷ [];
  received_data = [];
  pending = idle;
  pushed = [];
  disconnects = 0;
}

-- The constructor, and the keys that Encryptor::create_key will give. `guid` is what Generator::guid gives;
-- the callbacks are not set yet.
unfoldable pub make_session : Bool → Bool → (ℕ → Text × Text) → Text → ℕ → ℕ → ℕ → NetworkSession
unfolding make_reader
make_session use_encrypt_module encrypt keys guid highs normals lows = record {
  line = record {
    sender = record {
      condition = unconnected;
      socket = false;
      thread_pool = none;
      use_encrypt_module = use_encrypt_module;
    };
    id = codes "unauthorized_client";
    sub_id = guid;
    registered_key = [];
    encrypt_mode = use_encrypt_module && encrypt;
    key = [];
    iv = [];
    keys = keys;
    drawn = 0;
    callback = none;
  };
  messages = record {
    reader = make_reader;
    file_manager = record { thread_pool = none; callback = true; file_conditions = [] };
    received_binary_callback = false;
    received_message_callback = false;
    received_file_callback = false;
  };
  received_files_callback = false;
  high_priority_count = highs;
  normal_priority_count = normals;
  low_priority_count = lows;
}

abbrev pub with_reader : Reader → NetworkSession → NetworkSession
with_reader reader session = record session {
  messages = record session.messages { reader = reader };
}

-- The line is brought into the condition of the reader, and the reader into that of the line.
unfoldable pub follow : Json → NetworkSession → NetworkSession
follow json session = record session {
  line = set_condition json session.messages.reader.condition session.line;
}

abbrev pub agree : NetworkSession → NetworkSession
agree session =
    with_reader (DataHandler.set_condition session.line.sender.condition session.messages.reader)
      session

-- condition(new_condition).
unfoldable pub enter : Json → ConnectConditions → NetworkSession → NetworkSession
unfolding follow
enter json condition session =
    follow json (with_reader (DataHandler.set_condition condition session.messages.reader) session)

abbrev pub with_pool : Option ThreadPool → NetworkSession → NetworkSession
with_pool pool session = record session {
  line = record session.line { sender = record session.line.sender { thread_pool = pool } };
  messages = record session.messages {
    reader = record session.messages.reader {
      thread_pool = elim pool [ none ↦ false | some p ↦ true ];
    };
  };
}

abbrev pub with_file_pool : Option ThreadPool → NetworkSession → NetworkSession
with_file_pool pool session = record session {
  messages = record session.messages {
    file_manager = record session.messages.file_manager { thread_pool = pool };
  };
}

-- The file manager has the session's thread pool, if it has one: the pool is lent to it for a call.
abbrev pub lent : NetworkSession → NetworkSession
lent session = elim session.messages.file_manager.thread_pool [
  | none ↦ session
  | some pool ↦ with_file_pool session.line.sender.thread_pool session
]

abbrev pub given_back : NetworkSession → NetworkSession
given_back session = elim session.messages.file_manager.thread_pool [
  | none ↦ session
  | some pool ↦ record session {
    line = record session.line { sender = record session.line.sender { thread_pool = some pool } };
  }
]

-- What received_data answers: a result, or the call of a callback for binary data, texts or files with its
-- arguments. The callback of the connection, which response_connection calls or has a job call, is part of
-- the line, and its outcome is an answer. A file's report goes with the call of received_file_callback_, if it is made.
pub data Reply : Type 0 where
  answers : Outcome → Reply
  calls_binary : Text → Text → Text → List ℕ → Reply
  calls_message : Text → Text → Text → Reply
  calls_file : Text → Text → Outcome → Text × Text → Reply

abbrev pub reply_of : NetworkSession → Handled → Reply
reply_of session (replies outcome) = answers outcome
reply_of session (binary_callback text bytes) =
    calls_binary session.line.id session.line.sub_id text bytes
reply_of session (message_callback text) = calls_message session.line.id session.line.sub_id text

abbrev pub with_messages : Messages.Session → NetworkSession → NetworkSession
with_messages messages session = record session { messages = messages }

-- received_data: the handler of a mode, by its code. `none`: it throws, or is undefined.
unfoldable pub received_data :
    Json → (List ℕ → Option Text) → ℕ → List ℕ → NetworkSession → Option (NetworkSession × Reply)
unfolding follow
received_data json save_temp_path mode bytes session =
    if mode == 3
    then (session_received json bytes session.line
        >>= (λ r. some (agree (record session { line = r.0 }), answers r.1)))
    else if mode == 0
    then (received_binary bytes session.messages
        >>= (λ r. some (follow json (with_messages r.0 session), reply_of session r.1)))
    else if mode == 2
    then (received_message bytes session.messages
        >>= (λ r. some (follow json (with_messages r.0 session), reply_of session r.1)))
    else if mode == 1
    then (received_file save_temp_path bytes (lent session).messages >>= (λ r. some (
      follow json (given_back (with_messages r.0 session)),
      elim r.2 [
        | none ↦ answers r.1
        | some told ↦ calls_file session.line.id session.line.sub_id r.1 told
      ],
    )))
    else some (session, answers (false, some (codes "there is no matched mode")))

-- received_files, which the file manager calls: the arguments of received_files_callback_, or an error.
unfoldable pub received_files :
    List Text
    → List (Text × Text)
    → NetworkSession
    → Option (Text × Text × List Text × List (Text × Text)) × Outcome
received_files failures successes session =
    if not session.received_files_callback
    then (none, (false, some (codes "there is no callback to handle received files")))
    else (some (session.line.id, session.line.sub_id, failures, successes), (true, none))

-- The completion of a read.
unfoldable pub completes : Json → Bool → List ℕ → NetworkSession → NetworkSession
unfolding follow complete
completes json failed bytes session =
    follow json (with_reader (complete failed bytes session.messages.reader) session)

-- destroy_thread_pool. `none` is the undefined behaviour of ThreadPool::stop.
unfoldable pub destroy_thread_pool : Files → NetworkSession → Option (Files × NetworkSession)
destroy_thread_pool files session = elim session.line.sender.thread_pool [
  | none ↦ some (files, with_pool none session)
  | some pool ↦
      ThreadPool.stop true files pool >>= (λ stopped. some (stopped.0, with_pool none session))
]

abbrev pub session_title : Text → Text
session_title id = codes "ThreadPool on NetworkSession on " ++ id

-- create_thread_pool, and the file manager that is given the pool.
unfoldable pub create_thread_pool :
    (ThreadWorker → Bool) → Files → NetworkSession → Option (Files × NetworkSession)
unfolding destroy_thread_pool
create_thread_pool spawns files session = destroy_thread_pool files session >>= (λ destroyed.
    let made = handler_pool spawns (session_title session.line.id) session.line.id (
      handler_workers session.high_priority_count session.normal_priority_count
        session.low_priority_count) in
    let (files', bare) = destroyed in some (files', with_pool (some made) bare))

abbrev pub with_socket : Option Bool → NetworkSession → NetworkSession
with_socket socket session = record session {
  line = record session.line {
    sender = record session.line.sender { socket = elim socket [ none ↦ false | some o ↦ true ] };
  };
  messages = record session.messages {
    reader = record session.messages.reader { socket = socket };
  };
}

-- start: the socket is null, or is open or not.
unfoldable pub start :
    Json
    → (ThreadWorker → Bool)
    → Option Bool
    → ℕ
    → Files
    → NetworkSession
    → Option (Files × NetworkSession)
unfolding enter create_thread_pool
start json spawns none buffer_size files session = some (files, enter json unconnected session)
start json spawns (some opened) buffer_size files session =
    let first = enter json unconnected session in
    let sized = with_reader (record first.messages.reader { buffer_size = buffer_size }) first in
    create_thread_pool spawns files (enter json waiting (with_socket (some opened) sized))
    >>= (λ created.
        let made = with_file_pool created.1.line.sender.thread_pool created.1 in
        some (created.0, follow json (with_reader (read_start_code 0 made.messages.reader) made)))

-- stop.
unfoldable pub stop : Json → Files → NetworkSession → Option (Files × NetworkSession)
unfolding enter destroy_thread_pool
stop json files session =
    destroy_thread_pool files (with_file_pool none (enter json expired session))
    >>= (λ destroyed. some (destroyed.0, with_socket none destroyed.1))
