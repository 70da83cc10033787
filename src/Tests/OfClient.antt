-- ===== src/Tests/OfClient.antt =====
-- The theorems on NetworkClient.cpp and on send_files at concrete inputs.
use cpp_toolkit.Prelude.{ℕ, ◌≡◌, refl, Bool, true, false, Option, none, some, List, [], ◌∷◌, codes}
use cpp_toolkit.Thread.Job.{Text}
use cpp_toolkit.Thread.JobPool.{JobPool}
use cpp_toolkit.Thread.ThreadPool.{ThreadPool}
use cpp_toolkit.Thread.ThreadWorker.{ThreadWorker}
use cpp_toolkit.Network.DataHandler.{waiting, confirmed}
use cpp_toolkit.Network.Handshake.{Json, Client}
use cpp_toolkit.Network.NetworkClient.{NetworkClient}
use cpp_toolkit.Network.NetworkSession.{make_reader}
use cpp_toolkit.Network.NetworkClient.Receiving.{Receiver, answers}
use cpp_toolkit.Network.NetworkClient.Receiving.Expired.{
  serve, refusals, of_message, content_closes,
}

abbrev some_json : Json
some_json = record {
  request_text = λ r. 123 ∷ r.id;
  answer_text = λ a. 123 ∷ a.id;
  parse_request = λ t. none;
  parse_answer = λ t. none;
}

abbrev idle_pool : ThreadPool
idle_pool = record {
  pause = false;
  working = false;
  thread_title = codes "pool";
  job_pool = some (record {
    job_pool_title = codes "jobs";
    lock_condition = false;
    notify_callback = true;
    job_queues = [];
  });
  thread_workers = [];
}

abbrev a_line : Client
a_line = record {
  sender = record {
    condition = confirmed;
    socket = true;
    thread_pool = some idle_pool;
    use_encrypt_module = true;
  };
  id = codes "c";
  sub_id = [];
  server_id = [];
  registered_key = codes "k";
  encrypt_mode = false;
  key = [];
  iv = [];
  callback = true;
  told = [];
}

abbrev a_client : NetworkClient
a_client = record {
  line = a_line;
  io_context = true;
  promise = none;
  future_valid = false;
  file_pool = true;
  high_priority_count = 1;
  normal_priority_count = 1;
  low_priority_count = 1;
}

abbrev jobs_of : JobPool
jobs_of = record {
  job_pool_title = codes "jobs";
  lock_condition = false;
  notify_callback = true;
  job_queues = [];
}

abbrev every_thread : ThreadWorker → Bool
every_thread worker = true

abbrev two_files : List (Text × Text)
two_files = (codes "p", codes "first") ∷ (codes "q", codes "second") ∷ []

abbrev a_receiver : Receiver
a_receiver = record {
  line = record a_line { sender = record a_line.sender { condition = waiting } };
  messages = record {
    reader = record make_reader { condition = waiting };
    file_manager = record { thread_pool = none; callback = true; file_conditions = [] };
    received_binary_callback = true;
    received_message_callback = true;
    received_file_callback = true;
  };
  received_files_callback = true;
}

abbrev no_path : List ℕ → Option Text
no_path bytes = none

content_closes_example :
    (text : Text) × (serve some_json no_path ((2, codes "hello") ∷ (3, codes "s") ∷ []) a_receiver
      ≡ answers (false, some text) ∷ refusals ((3, codes "s") ∷ []))
unfolding make_reader
content_closes_example =
    content_closes some_json no_path 2 (codes "hello") ((3, codes "s") ∷ []) a_receiver refl
      of_message
