-- ===== src/Tests/OfSession.antt =====
-- The theorems on NetworkSession.cpp and on the callbacks of NetworkServer.cpp at concrete inputs. A request is
-- read from a text that has the id and the key, of one character each.
use cpp_toolkit.Prelude.{
  ℕ, ◌≡◌, inl, refl, arith, Bool, true, false, Option, none, some, List, [], ◌∷◌, ◌++◌, codes, All,
  length,
}
use cpp_toolkit.Utilities.Converter.{to_array, to_string, has_bom}
use cpp_toolkit.Thread.Job.{Files, Text, Outcome}
use cpp_toolkit.Thread.ThreadPool.{ThreadPool}
use cpp_toolkit.Thread.ThreadWorker.{ThreadWorker}
use cpp_toolkit.Network.DataHandler.{waiting, confirmed, expired}
use cpp_toolkit.Network.Messages.{message, envelope, hands_over, receiving_job}
use cpp_toolkit.Network.Stages.{Codec, Handler, encrypt_job}
use cpp_toolkit.Network.Stages.Chain.{TakesBack, incoming, outgoing}
use cpp_toolkit.Network.Handshake.{Json, Request}
use cpp_toolkit.Network.NetworkSession.{
  NetworkSession, Reply, make_session, received_data, start, stop,
}
use cpp_toolkit.Network.NetworkSession.Closing.{Input, bears_key}
use cpp_toolkit.Network.NetworkSession.Gate.{IsAnswer, IsShut, serve, serve-IsAnswer}
use cpp_toolkit.Network.NetworkSession.Lifecycle.{Started, start_waits, stop_releases}
use cpp_toolkit.Network.NetworkServer
use cpp_toolkit.Network.NetworkServer.{NetworkServer, make_server, accept}
use cpp_toolkit.Network.NetworkServer.Lifecycle.{released, started, present}
use cpp_toolkit.Network.NetworkServer.Sessions.{session_ops, IsReleased, sessions_released}
use cpp_toolkit.Network.NetworkServer.Callbacks.{Callbacks, bound, message_arrives}

abbrev parse_request : Text → Option Request
parse_request (id ∷ key ∷ []) =
    some (record { id = id ∷ []; sub_id = []; registered_key = some (key ∷ []); condition = true })
parse_request _ = none

abbrev a_json : Json
a_json = record {
  request_text = λ r. 123 ∷ r.id;
  answer_text = λ a. 123 ∷ a.id;
  parse_request = parse_request;
  parse_answer = λ t. none;
}

abbrev fresh : NetworkSession
fresh = make_session true true (λ n. (codes "x", codes "y")) (codes "s") 1 1 1

abbrev a_session : NetworkSession
a_session = record fresh {
  line = record fresh.line {
    sender = record fresh.line.sender { condition = waiting };
    registered_key = codes "k";
  };
  messages = record fresh.messages {
    reader = record fresh.messages.reader { condition = waiting };
    received_message_callback = true;
  };
}

abbrev saves : List ℕ → Option Text
saves bytes = some (codes "/tmp/a")

-- A request with another key, a text, and a request with the key's first character.
abbrev inputs : List Input
inputs = (3, codes "cz") ∷ (2, codes "hello") ∷ (3, codes "k") ∷ []

no_key : All (λ input. bears_key a_json (codes "k") input ≡ false) inputs
unfolding bears_key has_bom to_string
no_key = (refl, (refl, (refl, tt)))

shut : IsShut (codes "k") a_session
unfolding make_session
shut = record { line = (refl, refl); reader = refl }

serve-IsAnswer_example : All IsAnswer (serve a_json saves inputs a_session)
serve-IsAnswer_example = serve-IsAnswer a_json saves inputs (codes "k") a_session shut no_key

abbrev an_idle_pool : ThreadPool
an_idle_pool = record {
  pause = false;
  working = false;
  thread_title = codes "pool";
  job_pool = some (record {
    job_pool_title = codes "jobs";
    lock_condition = false;
    notify_callback = true;
    job_queues = [];
  });
  thread_workers = [];
}

abbrev pooled : NetworkSession
pooled = record a_session {
  line = record a_session.line {
    sender = record a_session.line.sender { thread_pool = some an_idle_pool };
  };
}

stop_releases_example :
    (files' : Files) × (after : NetworkSession) × (stop a_json [] pooled ≡ some (files', after))
    × (after.line.sender.condition ≡ expired)
    × (after.messages.reader.condition ≡ expired)
    × (after.line.sender.socket ≡ false)
    × (after.messages.reader.socket ≡ none)
    × (after.line.sender.thread_pool ≡ none)
    × (after.messages.file_manager.thread_pool ≡ none)
stop_releases_example = stop_releases a_json [] pooled (_, refl)

abbrev always_spawns : ThreadWorker → Bool
always_spawns worker = true

start_waits_example :
    (files' : Files) × (after : NetworkSession) × (start a_json always_spawns
        (some true)
        2048
        []
        pooled
      ≡ some (files', after))
    × Started a_json 2048 after
start_waits_example = start_waits a_json always_spawns 2048 [] pooled (_, refl)

-- A codec that marks what it has coded.
abbrev marks : Codec
marks = record { encode = λ bytes. some (0 ∷ bytes); decode = unmarked }
  where
    unmarked : List ℕ → Option (List ℕ)
    unmarked [] = none
    unmarked (n ∷ bytes) = some bytes

abbrev a_handler : Handler
a_handler = record {
  condition = confirmed;
  thread_pool = some an_idle_pool;
  use_encrypt_module = true;
  encrypt_mode = true;
  compressor = marks;
  encryptor = marks;
}

takes_back : (bytes : List ℕ) → TakesBack marks bytes
takes_back bytes = inl (0 ∷ bytes, refl, refl)

abbrev talking : NetworkSession
talking = record a_session {
  line = record a_session.line { sender = record a_session.line.sender { condition = confirmed } };
  messages = record a_session.messages {
    reader = record a_session.messages.reader { condition = confirmed };
  };
}

-- A callback that returns what it gets.
abbrev tells : Text → Text → Text → Outcome
tells id sub_id text = (true, some (sub_id ++ text))

abbrev callbacks : Callbacks
callbacks = record { binary = none; message = some tells; file = none; files = none }

message_arrives_example :
    (reply : Reply) × (receiving_job true
        (incoming true a_handler (outgoing true a_handler (envelope message (codes "hello"))))
      ≡ some (hands_over 2 (codes "hello")))
    × (received_data a_json saves 2 (codes "hello") talking ≡ some (talking, reply))
    × (bound callbacks reply ≡ tells talking.line.id talking.line.sub_id (codes "hello"))
unfolding to_array has_bom
message_arrives_example =
    message_arrives a_handler a_json saves talking callbacks tells (codes "hello")
      record { line_confirmed = refl; reader_confirmed = refl; message_set = refl } refl refl refl
      (omega arith) (takes_back (envelope message (codes "hello")))
      (takes_back (envelope message (codes "hello")))
      (takes_back (encrypt_job a_handler (envelope message (codes "hello"))).data_)

abbrev a_server : NetworkServer NetworkSession
a_server = record (make_server NetworkSession (codes "server")) {
  sessions = some talking ∷ none ∷ [];
}

sessions_released_example :
    let ops = session_ops a_json [] (codes "g") in
    (files' : Files) × (files'' : Files) × (stopped : List NetworkSession) × (NetworkServer.start
        ops true always_spawns []
        (record a_server { io_context = false; promise = none })
      ≡ some (files', started always_spawns (record a_server { promise = none }), (true, none)))
    × (NetworkServer.stop ops files'
          (accept (some pooled) (started always_spawns (record a_server { promise = none })))
        ≡ some (
          files'',
          record (released a_server) { sessions = []; promise = none },
          stopped,
          (true, none),
        ))
    × (length stopped ≡ 2)
    × All IsReleased stopped
unfolding make_server make_session present
sessions_released_example =
    sessions_released a_json [] (codes "g") always_spawns a_server pooled tt (tt, ((_, refl), tt))
