-- ===== src/Tests/OfTools.antt =====
-- The theorems on Logger's thread and log folder, Encryptor, JsonTool and the backups of a JobPool at
-- concrete inputs, and tests of their functions.
use mathlib.Core.List.{flatten}
use cpp_toolkit.Prelude.{
  ℕ, ◌+◌, ◌*◌, ◌≡◌, refl, arith, true, false, Option, none, some, List, [], ◌∷◌, ◌++◌, codes,
  bytes_eq, if◌then◌else◌,
}
use cpp_toolkit.Prelude.Map.{find}
use cpp_toolkit.Thread.Job.{Files, Text}
use cpp_toolkit.Thread.JobPool.{JobPool}
use cpp_toolkit.Thread.JobPool.Backups
use cpp_toolkit.Thread.JobPool.Backups.{
  pool_uncompleted_jobs, contents, is_backup_path, always, backups_taken,
}
use cpp_toolkit.Utilities.Logger.{error, information, packet}
use cpp_toolkit.Utilities.Logger
use cpp_toolkit.Utilities.Logger.Queue
use cpp_toolkit.Utilities.Logger.Queue.{
  LogQueue, Event, writes, wakes, start_log, stop_log, make_logger, consoles, hour, remove_old,
}
use cpp_toolkit.Utilities.Logger.Order.{life, written, shown, life_keeps}
use cpp_toolkit.Utilities.Logger.Cycle.{others, every_log_goes}
use cpp_toolkit.Utilities.Encryptor.{sink, Crypto, create_key, encryption, decryption}
use cpp_toolkit.Utilities.Log
use cpp_toolkit.Utilities.Log.{message_type}
use cpp_toolkit.Database.{parse_postgres_array}
use cpp_toolkit.Utilities.JsonTool.{
  Value, scalar, object, array, no_member, member, no_element, element, pretty_format,
}
use cpp_toolkit.Utilities.JsonTool.Layout.{bare, compact, bare-pretty_format}

abbrev a_stamp : Text → Logger.Log
a_stamp text = record { log_type = information; json = text; text = text }

abbrev a_log : Logger.Log
a_log = record { log_type = packet; json = codes "x"; text = codes "x" }

abbrev a_logger : LogQueue
a_logger = make_logger false (codes "/run")

abbrev some_events : List Event
some_events = writes a_log ∷ wakes ∷ writes (a_stamp (codes "y")) ∷ []

life_keeps_example :
    (left : LogQueue) × (batches : List (List Logger.Log)) × (life false a_stamp
        (codes "log")
        some_events
        a_logger
      ≡ some (left, batches))
    × (flatten batches
        ≡ start_log a_stamp ∷ a_logger.messages ++ (written some_events ++ (stop_log a_stamp ∷ [])))
    × (left.messages ≡ [])
    × (left.thread ≡ false)
    × ((consoles always a_logger.settings (codes "a.log") (codes "b.log") batches []).1
        ≡ shown a_logger.settings (
            start_log a_stamp ∷ a_logger.messages
            ++ (written some_events ++ (stop_log a_stamp ∷ []))))
unfolding make_logger
life_keeps_example =
    life_keeps false a_stamp (codes "log") some_events a_logger always (codes "a.log")
      (codes "b.log") [] refl refl

-- A log written an hour ago, and a file that is no log.
abbrev a_folder : List Queue.Entry
a_folder =
    record { path = codes "a.log"; regular = true; extension = codes ".log"; written = hour }
    ∷ record { path = codes "a.txt"; regular = true; extension = codes ".txt"; written = 0 }
    ∷ []

-- The epoch of the file clock of libstdc++ is the first of January 2174.
abbrev years : ℕ
years = 6437664000 * 1000000000

every_log_goes_example : remove_old years (hour + hour) 7 a_folder ≡ others a_folder
every_log_goes_example =
    every_log_goes years (hour + hour) 7 a_folder (omega arith) (omega arith)
      (omega arith, (omega arith, tt))

one_stays :
    remove_old years (hour + hour) 7 a_folder
    ≡ record { path = codes "a.txt"; regular = true; extension = codes ".txt"; written = 0 } ∷ []
unfolding remove_old
one_stays = refl

-- A cipher that puts a byte in front, and base64 that puts a sign in front.
abbrev unmarked : List ℕ → Option (List ℕ)
unmarked [] = none
unmarked (x ∷ xs) = some xs

abbrev unsigned : List ℕ → List ℕ
unsigned [] = []
unsigned (x ∷ xs) = xs

abbrev a_lib : Crypto
a_lib = record {
  encode64 = λ block. 65 ∷ block;
  decode64 = unsigned;
  encrypt = λ key iv bytes. some (16 ∷ bytes);
  decrypt = λ key iv bytes. unmarked bytes;
}

coded_back :
    (create_key a_lib (1 ∷ []) (3 ∷ []) ≡ (codes "A" ++ (1 ∷ []), codes "A" ++ (3 ∷ [])))
    × (encryption a_lib (7 ∷ []) (codes "Ak") (codes "Ai") ≡ some (some (16 ∷ 7 ∷ []), none))
    × (decryption a_lib (16 ∷ 7 ∷ []) (codes "Ak") (codes "Ai") ≡ some (some (7 ∷ []), none))
unfolding create_key encryption decryption sink
coded_back = (refl, refl, refl)

abbrev a_value : Value
a_value = object (
    member (codes "\"a\"")
      (array (element (scalar (codes "1")) (element (scalar (codes "2")) no_element))) no_member)

bare-pretty_format_example : bare (pretty_format a_value 2 0) ≡ bare (compact a_value)
bare-pretty_format_example = bare-pretty_format a_value 2 0

printed_value : pretty_format a_value 2 0 ≡ codes "{\n  \"a\": [\n    1,\n    2\n  ]\n}\n"
unfolding pretty_format
printed_value = refl

abbrev a_pool : JobPool
a_pool = record {
  job_pool_title = codes "jobs";
  lock_condition = false;
  notify_callback = true;
  job_queues = [];
}

abbrev entries : List Backups.Entry
entries =
    record { path = codes "j/1.low"; regular = true; extension = codes ".low" }
    ∷ record { path = codes "j/2.txt"; regular = true; extension = codes ".txt" }
    ∷ record { path = codes "j/3.high"; regular = true; extension = codes ".high" }
    ∷ []

abbrev the_files : Files
the_files = (codes "j/1.low", 1 ∷ []) ∷ (codes "j/2.txt", 2 ∷ []) ∷ (codes "j/3.high", 3 ∷ []) ∷ []

backups_taken_example :
    ((pool_uncompleted_jobs (some a_pool) always always (some entries) the_files).1
      ≡ contents entries the_files)
    × ((path : Text)
        → find path (pool_uncompleted_jobs (some a_pool) always always (some entries) the_files).0
          ≡ (if is_backup_path path entries then none else find path the_files))
backups_taken_example =
    backups_taken a_pool entries the_files ((refl, (refl, tt)), ((refl, tt), (tt, tt)))

two_backups :
    (pool_uncompleted_jobs (some a_pool) always always (some entries) the_files).1
    ≡ (1 ∷ []) ∷ (3 ∷ []) ∷ []
unfolding pool_uncompleted_jobs
two_backups = refl

abbrev an_entry : Log.Log Text
an_entry = record {
  log_type = error;
  since_epoch = 1700000000123456789;
  local_time = codes "2023-11-14 22:13:20";
  stamp = some (codes "[1 ms]");
  log_message = codes "no file";
}

abbrev same : Text → Text
same text = text

the_line :
    Log.to_string same an_entry ≡ codes "[2023-11-14 22:13:20.123456][ERROR] no file [1 ms]\n"
unfolding Log.to_string
the_line = refl

array_of_two : parse_postgres_array (codes "{a, b c }") ≡ codes "a" ∷ codes "b c" ∷ []
unfolding parse_postgres_array
array_of_two = refl
