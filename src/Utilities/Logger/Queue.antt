-- ===== src/Utilities/Logger/Queue.antt =====
-- The state, the setters and the thread of Utilities/Logger.cpp. The four overloads of write differ in the
-- kind of text, which a Log no longer shows. The thread is seen through the batches that it hands to
-- write_log: what run does between two batches is a step, and other threads write between steps.
use cpp_toolkit.Prelude.{
  ℕ, zero, suc, ◌+◌, ◌-◌, ◌/◌, Bool, true, false, not, ◌&&◌, List, [], ◌∷◌, ◌++◌, codes,
  if◌then◌else◌, ◌==◌, nat_eq, bytes_eq, is_empty, leb, ltb, Option, none, some,
}
use cpp_toolkit.Utilities.File.{Disk, Text}
use cpp_toolkit.Utilities.Logger.{LogTypes, information, error, log_rank, Log, Logger, write_log}

-- `thread` tells whether thread_ is set.
pub record LogQueue : Type 0 where
  pub settings : Logger
  pub log_types : LogTypes
  pub write_interval : ℕ
  pub life_cycle_period : ℕ
  pub log_name : Text
  pub log_root : Text
  pub thread_stop : Bool
  pub thread : Bool
  pub messages : List Log

-- std::max: the first where they are equal.
abbrev pub max_type : LogTypes → LogTypes → LogTypes
max_type a b = if ltb (log_rank a) (log_rank b) then b else a

abbrev pub first_settings : Logger
first_settings = record {
  file_mode = information;
  console_mode = error;
  database_mode = false;
  notification = false;
  max_lines = 10000;
  max_file_size = 2097152;
  file_backup_mode = false;
}

-- The constructor; `current` is current_path. It gives no value to thread_stop_, so that is `indeterminate`.
unfoldable pub make_logger : Bool → Text → LogQueue
make_logger indeterminate current = record {
  settings = first_settings;
  log_types = max_type information error;
  write_interval = 0;
  life_cycle_period = 7;
  log_name = codes "log";
  log_root = current ++ codes "/";
  thread_stop = indeterminate;
  thread = false;
  messages = [];
}

unfoldable pub file_mode : LogTypes → LogQueue → LogQueue
file_mode mode q = record q {
  settings = record q.settings { file_mode = mode };
  log_types = max_type mode q.settings.console_mode;
}

unfoldable pub console_mode : LogTypes → LogQueue → LogQueue
console_mode mode q = record q {
  settings = record q.settings { console_mode = mode };
  log_types = max_type q.settings.file_mode mode;
}

unfoldable pub log_root : Text → Text → LogQueue → LogQueue
log_root current root q = record q {
  log_root = if is_empty root then current ++ codes "/" else root;
}

-- The other setters; `set` tells whether the notification is a function.
unfoldable pub life_cycle : ℕ → LogQueue → LogQueue
life_cycle cycle q = record q { life_cycle_period = cycle }

unfoldable pub max_file_size : ℕ → LogQueue → LogQueue
max_file_size size q = record q { settings = record q.settings { max_file_size = size } }

unfoldable pub database_mode : Bool → LogQueue → LogQueue
database_mode mode q = record q { settings = record q.settings { database_mode = mode } }

unfoldable pub write_interval : ℕ → LogQueue → LogQueue
write_interval milli_seconds q = record q { write_interval = milli_seconds }

unfoldable pub set_notification_for_database : Bool → LogQueue → LogQueue
set_notification_for_database set q = record q {
  settings = record q.settings { notification = set };
}

-- write, and whether it notifies the thread.
unfoldable pub write : Log → LogQueue → LogQueue × Bool
write message q = if q.thread_stop then (q, false) else (
  record q { messages = q.messages ++ (message ∷ []) },
  leb (log_rank message.log_type) (log_rank q.log_types) && (q.write_interval == 0),
)

-- The text of a StringLog of the type None rests on the clock: `stamp` gives its log.
abbrev pub Stamp : Type 0
Stamp = Text → Log

abbrev pub start_log : Stamp → Log
start_log stamp = stamp (codes "[START]")

abbrev pub stop_log : Stamp → Log
stop_log stamp = stamp (codes "[STOP]")

-- A round of the loop of run, from the wake-up on, with what it hands to write_log, if it does.
unfoldable pub round : LogQueue → LogQueue × List (List Log)
round q = if is_empty q.messages then (q, []) else (record q { messages = [] }, q.messages ∷ [])

-- The loop of run once thread_stop_ is set. `none` is a loop out of fuel.
unfoldable pub last_rounds : ℕ → LogQueue → Option (LogQueue × List (List Log))
unfolding round
last_rounds zero q = none
last_rounds (suc fuel) q =
    if is_empty q.messages then some (q, []) else elim (last_rounds fuel (round q).0) [
      | none ↦ none
      | some (q', batches) ↦ some (q', (round q).1 ++ batches)
    ]

-- stop, with what the thread that it joins has handed to write_log. `lost` tells whether the notification falls
-- between the test and the sleep of run, since stop does not hold the mutex: without an interval the thread
-- then sleeps for ever, and the join does not end, `none`.
unfoldable pub stop : Bool → Stamp → LogQueue → Option (LogQueue × List (List Log))
unfolding last_rounds
stop lost stamp q =
    if not q.thread
    then some (q, [])
    else if lost && ((q.write_interval == 0) && is_empty q.messages)
    then none
    else elim (last_rounds 2 (record q { thread_stop = true })) [
      | none ↦ none
      | some (q', batches) ↦ some (
        record q' { thread = false; thread_stop = false },
        batches ++ ((stop_log stamp ∷ []) ∷ []),
      )
    ]

-- start, with the batches up to the first round of the new thread. `lost` is that of its stop.
unfoldable pub start : Bool → Stamp → Text → LogQueue → Option (LogQueue × List (List Log))
unfolding stop
start lost stamp name q = elim (stop lost stamp q) [
  | none ↦ none
  | some (q', batches) ↦ some (
    record q' { log_name = name; thread_stop = false; thread = true },
    batches ++ ((start_log stamp ∷ []) ∷ []),
  )
]

-- What happens while the thread runs: some thread writes, or the logger's wakes up.
pub data Event : Type 0 where
  writes : Log → Event
  wakes : Event

unfoldable pub step : Event → LogQueue → LogQueue × List (List Log)
unfolding write round
step (writes message) q = ((write message q).0, [])
step wakes q = round q

unfoldable pub steps : List Event → LogQueue → LogQueue × List (List Log)
unfolding step
steps [] q = (q, [])
steps (event ∷ events) q =
    let (q', batches) = step event q in let (q'', more) = steps events q' in (q'', batches ++ more)

-- The batches on the console, one after the other.
unfoldable pub consoles :
    (Text → Bool) → Logger → Text → Text → List (List Log) → Disk → Disk × List Text
consoles permits logger log_path backup_path [] disk = (disk, [])
consoles permits logger log_path backup_path (batch ∷ batches) disk =
    let (disk', printed, told) = write_log permits logger log_path backup_path batch disk in
    let (disk'', more) = consoles permits logger log_path backup_path batches disk' in
    (disk'', printed ++ more)

-- An entry of the log folder: its path and extension, whether it is a regular file, and the time since
-- 1970 at which it was written.
pub record Entry : Type 0 where
  pub path : Text
  pub regular : Bool
  pub extension : Text
  pub written : ℕ

-- Nanoseconds of an hour.
abbrev pub hour : ℕ
hour = 3600000000000

-- The test of check_life_cycle. `ahead` is by how much the epoch of the clock of std::filesystem comes after
-- that of std::chrono::system_clock; the code subtracts the times since the two.
abbrev pub is_old : ℕ → ℕ → ℕ → Entry → Bool
is_old ahead now period entry =
    entry.regular
    && ((entry.extension == codes ".log") && ltb period ((now + ahead - entry.written) / hour / 24))

unfoldable pub remove_old : ℕ → ℕ → ℕ → List Entry → List Entry
remove_old ahead now period [] = []
remove_old ahead now period (entry ∷ entries) =
    let rest = remove_old ahead now period entries in
    if is_old ahead now period entry then rest else entry ∷ rest

-- check_life_cycle: the entries that stay, and the flag that it returns; `folder` is none where log_root_ does
-- not exist. `today` is what is read of the clock at its start, `end` at its end.
unfoldable pub check_life_cycle :
    Text → Text → Text → ℕ → ℕ → ℕ → Option (List Entry) → Option (List Entry) × Text
unfolding remove_old
check_life_cycle previous today end ahead now period folder =
    if today == previous then (folder, previous) else elim folder [
      | none ↦ (none, previous)
      | some entries ↦ (some (remove_old ahead now period entries), end)
    ]
