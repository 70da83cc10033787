-- ===== src/Network/FileManager.antt =====
-- Network/FileManager.h and FileManager.cpp: for each transfer, the files that failed and that arrived. When
-- as many have been reported as were announced, a job is pushed on the thread pool that hands the
-- reports to received_files_callback_. failure and success give up the mutex before they call
-- check_condition, so each of them is two steps on the state; a text that is printed into an error
-- follows its fixed part.
pub mod Transfers
use cpp_toolkit.Prelude.{
  ℕ, ◌+◌, Bool, true, false, not, Option, none, some, List, [], ◌∷◌, ◌++◌, codes, if◌then◌else◌,
  ◌==◌, nat_eq, bytes_eq, length,
}
use cpp_toolkit.Prelude.Map.{find, assign, insert, erase}
use cpp_toolkit.Utilities.Converter.{to_array, to_string}
use cpp_toolkit.Thread.JobPriorities.{low}
use cpp_toolkit.Thread.Job.{Job, Text, Outcome, make_data_job}
use cpp_toolkit.Thread.ThreadPool.{ThreadPool, push_job}

pub record ReceivedConditions : Type 0 where
  pub count : ℕ
  pub failures : List Text
  pub successes : List (Text × Text)

-- received_files_callback_ is set or null.
pub record FileManager : Type 0 where
  pub thread_pool : Option ThreadPool
  pub callback : Bool
  pub file_conditions : List (Text × ReceivedConditions)

abbrev pub same_guid : Text → Outcome
same_guid guid = (false, some (codes "cannot make file manager due to same guid: " ++ guid))

abbrev pub no_guid : Text → Outcome
no_guid guid = (false, some (codes "cannot find same guid on file manager: " ++ guid))

unfoldable pub start : Text → ℕ → FileManager → FileManager × Outcome
unfolding find insert
start guid count m = elim (find guid m.file_conditions) [
  | some target ↦ (m, same_guid guid)
  | none ↦
      let fresh : ReceivedConditions = record { count = count; failures = []; successes = [] } in
      (record m { file_conditions = insert guid fresh m.file_conditions }, (true, none))
]

-- The job that check_condition pushes.
abbrev pub report_job : Text → Option Job
report_job guid = some (make_data_job low (to_array guid) (codes "check_condition_callback") true)

-- `none` is the call of a null thread_pool_.
unfoldable pub check_condition : Text → FileManager → Option (FileManager × Outcome)
unfolding find
check_condition guid m = elim (find guid m.file_conditions) [
  | none ↦ some (m, no_guid guid)
  | some target ↦
      if not (target.count == length target.failures + length target.successes)
      then some (m, (true, none))
      else elim m.thread_pool [
        | none ↦ none
        | some pool ↦
            let (pool', outcome, notified) = push_job (report_job guid) pool in
            some (record m { thread_pool = some pool' }, outcome)
      ]
]

unfoldable pub failure : Text → Text → FileManager → Option (FileManager × Outcome)
unfolding find assign
failure guid message m = elim (find guid m.file_conditions) [
  | none ↦ some (m, no_guid guid)
  | some target ↦
      let reported = record target { failures = target.failures ++ (message ∷ []) } in
      check_condition guid (record m { file_conditions = assign guid reported m.file_conditions })
]

unfoldable pub success : Text → Text → Text → FileManager → Option (FileManager × Outcome)
unfolding find assign
success guid message temp_file_path m = elim (find guid m.file_conditions) [
  | none ↦ some (m, no_guid guid)
  | some target ↦
      let reported = record target {
        successes = target.successes ++ ((message, temp_file_path) ∷ []);
      } in
      check_condition guid (record m { file_conditions = assign guid reported m.file_conditions })
]

-- What check_condition_callback comes to: a result, or a call of received_files_callback_.
pub data Reported : Type 0 where
  replies : Outcome → Reported
  calls : List Text → List (Text × Text) → Reported

unfoldable pub check_condition_callback : List ℕ → FileManager → FileManager × Reported
unfolding find erase
check_condition_callback guid m =
    let key = to_string guid in
    elim (find key m.file_conditions) [
      | none ↦ (m, replies (no_guid key))
      | some target ↦ (
        record m { file_conditions = erase key m.file_conditions },
        (if m.callback then calls target.failures target.successes else replies (true, none)),
      )
    ]
