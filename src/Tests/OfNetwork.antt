-- ===== src/Tests/OfNetwork.antt =====
-- The theorems on Network/ at concrete inputs. The socket takes all that it is given.
use cpp_toolkit.Prelude.{
  zero, suc, inl, ℕ, ◌≡◌, refl, arith, true, false, Option, none, some, List, [], ◌∷◌, ◌++◌, codes,
  if◌then◌else◌, ◌==◌, bytes_eq, length, take_all,
}
use cpp_toolkit.Prelude.Map.{find}
use cpp_toolkit.Utilities.Combiner.{◌>>=◌}
use cpp_toolkit.Utilities.Converter.{to_array, has_bom}
use cpp_toolkit.Thread.Job.{Text}
use cpp_toolkit.Thread.ThreadPool.{ThreadPool, push_job}
use cpp_toolkit.Network.DataHandler.{Reader, start_code, confirmed, expired, condition_eq}
use cpp_toolkit.Network.DataHandler.Reads.{Delivered, live}
use cpp_toolkit.Network.DataHandler.Framing.{frame, taken, reads_frame}
use cpp_toolkit.Network.SendingJob.{Socket, took, working}
use cpp_toolkit.Network.SendingJob.Writing.{IsSent, working_sends}
use cpp_toolkit.Network.FileManager
use cpp_toolkit.Network.FileManager.{FileManager, check_condition_callback, report_job, calls}
use cpp_toolkit.Network.FileManager.Transfers.{
  Report, failed, arrived, report, report_all, add, add_all, no_reports, transfer,
}
use cpp_toolkit.Network.Messages.{
  binary, mode_code, envelope, hands_over, receiving_job, Session, file_sending_job, sends,
  file_information, received_file,
}
use cpp_toolkit.Network.Stages.{Codec, Handler, encrypt_job}
use cpp_toolkit.Network.Stages.Chain.{TakesBack, sent_out, incoming, stages_hand_over}
use cpp_toolkit.Network.Messages.Files.{file_arrives}

abbrev a_reader : Reader
a_reader = record {
  condition = confirmed;
  socket = some true;
  thread_pool = true;
  buffer_size = 8;
  start_code_tag = 231 ∷ 231 ∷ 231 ∷ 231 ∷ [];
  end_code_tag = 67 ∷ 67 ∷ 67 ∷ 67 ∷ [];
  received_data = [];
  pending = start_code 0;
  pushed = [];
  disconnects = 0;
}

reads_frame_example :
    Delivered
      (live a_reader (start_code 0) [])
      (frame a_reader.start_code_tag (1 ∷ 2 ∷ []) a_reader.end_code_tag ++ (5 ∷ []))
      (taken a_reader (1 ∷ 2 ∷ []))
      (5 ∷ [])
reads_frame_example =
    reads_frame a_reader [] (1 ∷ 2 ∷ []) (5 ∷ [])
      record { unexpired = refl; open_socket = refl; pool = refl; room = omega arith }
      record { start_length = refl; end_length = refl } (omega arith)

abbrev expired_reader : Reader
expired_reader = record a_reader { condition = expired }

took_inj : (m n : ℕ) → took m ≡ took n → m ≡ n
took_inj m n e = ground arith

abbrev wire : Socket
wire = record {
  State = List ℕ;
  send = λ s bytes. (s ++ bytes, took (length bytes));
  sent = λ s. s;
  send_front = λ s bytes n e.
      let all : length bytes ≡ n = took_inj (length bytes) n e in
      (omega arith, rw (take_all n bytes (omega arith)) refl);
}

working_sends_example :
    IsSent wire []
      (frame (231 ∷ []) (1 ∷ 2 ∷ 3 ∷ []) (67 ∷ []))
      (working wire (231 ∷ []) (1 ∷ 2 ∷ 3 ∷ []) (67 ∷ []) 2 (some []) [])
working_sends_example = working_sends wire (231 ∷ []) (1 ∷ 2 ∷ 3 ∷ []) (67 ∷ []) 2 [] [] refl

abbrev a_pool : ThreadPool
a_pool = record {
  pause = false;
  working = true;
  thread_title = [];
  job_pool = some record {
    job_pool_title = [];
    lock_condition = false;
    notify_callback = true;
    job_queues = [];
  };
  thread_workers = [];
}

abbrev a_manager : FileManager
a_manager = record { thread_pool = some a_pool; callback = true; file_conditions = [] }

abbrev some_reports : List Report
some_reports = failed (codes "a") ∷ []

no_entry : find (codes "g") a_manager.file_conditions ≡ none
unfolding find
no_entry = refl

transfer_example :
    let all = add (arrived (codes "b") (codes "/tmp/b")) (add_all some_reports (no_reports 2)) in
    (m1 m2 : FileManager) × (report_all
        (codes "g")
        some_reports
        (FileManager.start (codes "g") 2 a_manager).0
      ≡ some m1)
    × (m1.thread_pool ≡ some a_pool)
    × (report (codes "g") (arrived (codes "b") (codes "/tmp/b")) m1
        ≡ some (m2, (push_job (report_job (codes "g")) a_pool).1))
    × (m2.thread_pool ≡ some (push_job (report_job (codes "g")) a_pool).0)
    × ((check_condition_callback (to_array (codes "g")) m2).1 ≡ calls all.failures all.successes)
    × (find (codes "g") (check_condition_callback (to_array (codes "g")) m2).0.file_conditions
        ≡ none)
unfolding has_bom
transfer_example =
    transfer (codes "g") some_reports (arrived (codes "b") (codes "/tmp/b")) a_pool a_manager
      no_entry refl refl refl

abbrev a_session : Session
a_session = record {
  reader = a_reader;
  file_manager = a_manager;
  received_binary_callback = true;
  received_message_callback = true;
  received_file_callback = true;
}

abbrev one_file : Text → Option (List ℕ)
one_file path = if path == codes "a" then some (7 ∷ []) else none

abbrev saves : List ℕ → Option Text
saves bytes = some (codes "/tmp/a")

file_arrives_example :
    (w : List ℕ) × (file_sending_job true one_file
        (file_information (codes "g") 3 (codes "a") (codes "t"))
      ≡ some (sends w))
    × (received_file saves w a_session ≡ (
        FileManager.success (codes "g") (codes "t") (codes "/tmp/a") a_session.file_manager >>= λ r.
        some (
          record a_session { file_manager = r.0 },
          r.1,
          (if a_session.received_file_callback then some (codes "t", codes "/tmp/a") else none),
        )))
unfolding has_bom
file_arrives_example =
    file_arrives one_file saves a_session (codes "g") 3 (codes "a") (codes "t") (7 ∷ [])
      (codes "/tmp/a") refl refl refl (refl, refl, refl) (omega arith) (omega arith)

-- A codec that marks what it has coded.
abbrev marks : Codec
marks = record { encode = λ bytes. some (0 ∷ bytes); decode = unmarked }
  where
    unmarked : List ℕ → Option (List ℕ)
    unmarked [] = none
    unmarked (zero ∷ bytes) = some bytes
    unmarked (suc n ∷ bytes) = none

abbrev a_handler : Handler
a_handler = record {
  condition = confirmed;
  thread_pool = some a_pool;
  use_encrypt_module = true;
  encrypt_mode = true;
  compressor = marks;
  encryptor = marks;
}

marks-TakesBack : (bytes : List ℕ) → TakesBack marks bytes
marks-TakesBack bytes = inl (0 ∷ bytes, refl, refl)

stages_hand_over_example :
    receiving_job true (incoming true a_handler (sent_out a_handler binary (1 ∷ [])))
    ≡ some (hands_over (mode_code binary) (1 ∷ []))
stages_hand_over_example =
    stages_hand_over a_handler binary (1 ∷ []) refl refl (omega arith)
      (marks-TakesBack (envelope binary (1 ∷ []))) (marks-TakesBack (envelope binary (1 ∷ [])))
      (marks-TakesBack (encrypt_job a_handler (envelope binary (1 ∷ []))).data_)
