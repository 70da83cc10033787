-- ===== src/Network/FileManager/Transfers.antt =====
-- A transfer from its start to its report.
use mathlib.Core.Path.{subst}
use cpp_toolkit.Prelude.{
  ℕ, ◌+◌, suc, ◌<◌, ◌≡◌, refl, sym, ap, ◌∙◌, arith, true, false, Option, none, some, List, [], ◌∷◌,
  ◌++◌, nat_eq, bytes_eq, eq_refl, length, length-append,
}
use cpp_toolkit.Prelude.Map.{find, assign, erase, insert_new, find-assign, find-erase}
use cpp_toolkit.Utilities.Converter.{to_array, to_string, has_bom}
use cpp_toolkit.Utilities.Converter.Bytes.{to_string-to_array}
use cpp_toolkit.Thread.Job.{Text, Outcome}
use cpp_toolkit.Thread.ThreadPool.{ThreadPool, push_job}
use cpp_toolkit.Network.FileManager.{
  FileManager, ReceivedConditions, start, failure, success, check_condition,
  check_condition_callback, report_job, calls,
}

-- What is reported of a file: that it failed, or that it arrived, and where it is.
pub data Report : Type 0 where
  failed : Text → Report
  arrived : Text → Text → Report

abbrev pub report : Text → Report → FileManager → Option (FileManager × Outcome)
report guid (failed message) m = failure guid message m
report guid (arrived message path) m = success guid message path m

abbrev pub add : Report → ReceivedConditions → ReceivedConditions
add (failed message) c = record c { failures = c.failures ++ (message ∷ []) }
add (arrived message path) c = record c { successes = c.successes ++ ((message, path) ∷ []) }

abbrev pub add_all : List Report → ReceivedConditions → ReceivedConditions
add_all [] c = c
add_all (r ∷ rs) c = add_all rs (add r c)

abbrev total : ReceivedConditions → ℕ
total c = length c.failures + length c.successes

add-total : (r : Report) (c : ReceivedConditions) → total (add r c) ≡ suc (total c)
add-total (failed message) c = omega (arith, length-append c.failures (message ∷ []))
add-total (arrived message path) c = omega (arith, length-append c.successes ((message, path) ∷ []))

add-count : (r : Report) (c : ReceivedConditions) → (add r c).count ≡ c.count
add-count (failed message) c = refl
add-count (arrived message path) c = refl

-- The table with the report added to the entry of the transfer.
abbrev noted : Text → Report → ReceivedConditions → FileManager → FileManager
noted guid r c m = record m { file_conditions = assign guid (add r c) m.file_conditions }

report_checks :
    (guid : Text) (r : Report) (c : ReceivedConditions) (m : FileManager)
    → find guid m.file_conditions ≡ some c
    → report guid r m ≡ check_condition guid (noted guid r c m)
unfolding failure success
report_checks guid (failed message) c m h = rw (failure, h) refl
report_checks guid (arrived message path) c m h = rw (success, h) refl

find-noted :
    (guid : Text) (r : Report) (c : ReceivedConditions) (m : FileManager)
    → find guid (noted guid r c m).file_conditions ≡ some (add r c)
find-noted guid r c m = find-assign guid guid (add r c) m.file_conditions ∙ rw (eq_refl guid) refl

check_pending :
    (guid : Text) (c : ReceivedConditions) (m : FileManager)
    → find guid m.file_conditions ≡ some c
    → total c < c.count
    → check_condition guid m ≡ some (m, (true, none))
unfolding check_condition
check_pending guid c m h early = ground (arith)

check_complete :
    (guid : Text) (c : ReceivedConditions) (m : FileManager) (pool : ThreadPool)
    → find guid m.file_conditions ≡ some c
    → total c ≡ c.count
    → m.thread_pool ≡ some pool
    → check_condition guid m
      ≡ some (
        record m { thread_pool = some (push_job (report_job guid) pool).0 },
        (push_job (report_job guid) pool).1,
      )
unfolding check_condition
check_complete guid c m pool h full p = ground (arith)

add_all-total :
    (rs : List Report) (c : ReceivedConditions) → total (add_all rs c) ≡ total c + length rs
add_all-total [] c = omega arith
add_all-total (r ∷ rs) c = omega (arith, add_all-total rs (add r c), add-total r c)

add_all-count : (rs : List Report) (c : ReceivedConditions) → (add_all rs c).count ≡ c.count
add_all-count [] c = refl
add_all-count (r ∷ rs) c = add_all-count rs (add r c) ∙ add-count r c

-- The reports are made one after the other.
abbrev pub report_all : Text → List Report → FileManager → Option FileManager
report_all guid [] m = some m
report_all guid (r ∷ rs) m = elim (report guid r m) [
  | none ↦ none
  | some (m', outcome) ↦ report_all guid rs m'
]

-- The state of a transfer that is under way.
record IsAt (guid : Text) (c : ReceivedConditions) (pool : ThreadPool) (m : FileManager)
    : Type 0 where
  entry : find guid m.file_conditions ≡ some c
  same_pool : m.thread_pool ≡ some pool
  calls_back : m.callback ≡ true

report_early :
    (guid : Text) (r : Report) (c : ReceivedConditions) (pool : ThreadPool) (m : FileManager)
    → IsAt guid c pool m
    → suc (total c) < c.count
    → (m' : FileManager) × (report guid r m ≡ some (m', (true, none))) × IsAt guid (add r c) pool m'
report_early guid r c pool m at early = (
  noted guid r c m,
  report_checks guid r c m at.entry
      ∙ check_pending guid (add r c) (noted guid r c m) (find-noted guid r c m)
          (omega (arith, add-total r c, add-count r c)),
  record { entry = find-noted guid r c m; same_pool = at.same_pool; calls_back = at.calls_back },
)

report_all_step :
    (guid : Text) (r : Report) (rs : List Report) (m m' : FileManager) (outcome : Outcome)
    → report guid r m ≡ some (m', outcome)
    → report_all guid (r ∷ rs) m ≡ report_all guid rs m'
report_all_step guid r rs m m' outcome e = rw (report_all, e) refl

reports_early :
    (guid : Text) (rs : List Report) (c : ReceivedConditions) (pool : ThreadPool) (m : FileManager)
    → IsAt guid c pool m
    → total c + length rs < c.count
    → (m' : FileManager) × (report_all guid rs m ≡ some m') × IsAt guid (add_all rs c) pool m'
reports_early guid [] c pool m at early = (m, refl, at)
reports_early guid (r ∷ rs) c pool m at early =
    let one = report_early guid r c pool m at (omega arith) in
    let others =
      reports_early guid rs (add r c) pool one.0 one.2
        (omega (arith, add-total r c, add-count r c)) in
    (others.0, report_all_step guid r rs m one.0 (true, none) one.1 ∙ others.1, others.2)

abbrev pub no_reports : ℕ → ReceivedConditions
no_reports count = record { count = count; failures = []; successes = [] }

start_fresh :
    (guid : Text) (count : ℕ) (m : FileManager)
    → find guid m.file_conditions ≡ none
    → (start guid count m).0
      ≡ record m { file_conditions = assign guid (no_reports count) m.file_conditions }
unfolding start
start_fresh guid count m fresh =
    rw (start, fresh)
      (ap (λ x. record m { file_conditions = x })
        (insert_new guid (no_reports count) m.file_conditions fresh))

start-IsAt :
    (guid : Text) (count : ℕ) (pool : ThreadPool) (m : FileManager)
    → find guid m.file_conditions ≡ none
    → m.thread_pool ≡ some pool
    → m.callback ≡ true
    → IsAt guid (no_reports count) pool (start guid count m).0
start-IsAt guid count pool m fresh p set = rw (start_fresh guid count m fresh) record {
  entry = find-assign guid guid (no_reports count) m.file_conditions ∙ rw (eq_refl guid) refl;
  same_pool = p;
  calls_back = set;
}

report_last :
    (guid : Text) (r : Report) (c : ReceivedConditions) (pool : ThreadPool) (m : FileManager)
    → IsAt guid c pool m
    → suc (total c) ≡ c.count
    → (m' : FileManager) × (report guid r m ≡ some (m', (push_job (report_job guid) pool).1))
      × IsAt guid (add r c) (push_job (report_job guid) pool).0 m'
report_last guid r c pool m at full = (
  record (noted guid r c m) { thread_pool = some (push_job (report_job guid) pool).0 },
  report_checks guid r c m at.entry
      ∙ check_complete guid (add r c) (noted guid r c m) pool (find-noted guid r c m)
          (omega (arith, add-total r c, add-count r c)) at.same_pool,
  record { entry = find-noted guid r c m; same_pool = refl; calls_back = at.calls_back },
)

callback_step :
    (bytes : List ℕ) (c : ReceivedConditions) (pool : ThreadPool) (m : FileManager)
    → IsAt (to_string bytes) c pool m
    → check_condition_callback bytes m ≡ (
      record m { file_conditions = erase (to_string bytes) m.file_conditions },
      calls c.failures c.successes,
    )
unfolding check_condition_callback
callback_step bytes c pool m at = rw (check_condition_callback, at.entry, at.calls_back) refl

callback_of :
    (guid : Text) (c : ReceivedConditions) (pool : ThreadPool) (m : FileManager)
    → has_bom guid ≡ false
    → IsAt guid c pool m
    → check_condition_callback (to_array guid) m
      ≡ (record m { file_conditions = erase guid m.file_conditions }, calls c.failures c.successes)
callback_of guid c pool m plain at =
    let same = (to_string-to_array guid).1 plain in
    let run = callback_step (to_array guid) c pool m (subst (λ x. IsAt x c pool m) (sym same) at) in
    subst
      (λ x.
        check_condition_callback (to_array guid) m
        ≡ (record m { file_conditions = erase x m.file_conditions }, calls c.failures c.successes))
      same run

-- What a started transfer is told of its files, and what the callback is then called with: for a text
-- as guid that has no byte order mark and no entry yet, a manager with a thread pool and a
-- callback, and as many reports as were announced. All reports but the last only
-- gather, the last one pushes exactly one job, and that job hands over what failed and what arrived
-- in the order of the reports, and drops the entry.
pub transfer :
    (guid : Text) (rs : List Report) (last : Report) (pool : ThreadPool) (m : FileManager)
    → find guid m.file_conditions ≡ none
    → m.thread_pool ≡ some pool
    → m.callback ≡ true
    → has_bom guid ≡ false
    → let all = add last (add_all rs (no_reports (suc (length rs)))) in
      (m1 m2 : FileManager) × (report_all guid rs (start guid (suc (length rs)) m).0 ≡ some m1)
      × (m1.thread_pool ≡ some pool)
      × (report guid last m1 ≡ some (m2, (push_job (report_job guid) pool).1))
      × (m2.thread_pool ≡ some (push_job (report_job guid) pool).0)
      × ((check_condition_callback (to_array guid) m2).1 ≡ calls all.failures all.successes)
      × (find guid (check_condition_callback (to_array guid) m2).0.file_conditions ≡ none)
transfer guid rs last pool m fresh p set plain =
    let c = no_reports (suc (length rs)) in
    let gathered =
      reports_early guid rs c pool (start guid (suc (length rs)) m).0
        (start-IsAt guid (suc (length rs)) pool m fresh p set) (omega arith) in
    let ended =
      report_last guid last (add_all rs c) pool gathered.0 gathered.2
        (omega (arith, add_all-total rs c, add_all-count rs c)) in
    let run =
      callback_of guid (add last (add_all rs c)) (push_job (report_job guid) pool).0 ended.0 plain
        ended.2 in
    (
      gathered.0,
      ended.0,
      gathered.1,
      gathered.2.same_pool,
      ended.1,
      ended.2.same_pool,
      ap (λ x. x.1) run,
      rw run (find-erase guid guid ended.0.file_conditions ∙ rw (eq_refl guid) refl),
    )
