-- ===== src/Thread/Job.antt =====
-- ThreadPool/Job.h and Job.cpp. A job is a record; the files that `save`, `load` and `destroy` work on
-- are a map from paths to contents, passed along. The code that a job calls back is not the
-- library's: `work` takes it as an argument, a function from the call that is made to what the call
-- does. Log lines are left out.
pub mod Laws
use cpp_toolkit.Prelude.{
  ℕ, suc, zero, ◌+◌, ◌*◌, ◌/◌, ◌%◌, ◌^◌, ◌≤◌, Bool, true, false, Option, none, some, List, [], ◌∷◌,
  ◌++◌, codes, if◌then◌else◌, ltb, leb, ◌==◌, nat_eq, bytes_eq, length, is_empty, take,
}
use cpp_toolkit.Prelude.Map.{find, assign, erase}
use cpp_toolkit.Prelude.Bytes.{le_bytes, le_value}
use cpp_toolkit.Thread.JobPriorities.{
  JobPriorities, top, high, normal, low, long_term, priority_string,
}

-- std::string and std::vector<uint8_t> are both sequences of bytes.
abbrev pub Text : Type 0
Text = List ℕ

-- std::tuple<bool, std::optional<std::string>>.
abbrev pub Outcome : Type 0
Outcome = Bool × Option Text

abbrev pub Files : Type 0
Files = List (Text × List ℕ)

-- The four callbacks are set or null; job_pool tells whether the weak pointer has been set.
pub record Job : Type 0 where
  pub title : Text
  pub use_time_stamp : Bool
  pub data_ : List ℕ
  pub temporary_file : Text
  pub priority : JobPriorities
  pub job_pool : Bool
  pub callback1 : Bool
  pub callback2 : Bool
  pub callback3 : Bool
  pub callback4 : Bool

unfoldable pub make_job : JobPriorities → List ℕ → Text → Bool → Job
make_job priority bytes title use_time_stamp = record {
  title = title;
  use_time_stamp = use_time_stamp;
  data_ = bytes;
  temporary_file = [];
  priority = priority;
  job_pool = false;
  callback1 = false;
  callback2 = false;
  callback3 = false;
  callback4 = false;
}

unfoldable pub make_void_job : JobPriorities → Text → Bool → Job
unfolding make_job
make_void_job priority title stamp =
    let job = make_job priority [] title stamp in record job { callback1 = true }

unfoldable pub make_bool_job : JobPriorities → Bool → Text → Bool → Job
unfolding make_job
make_bool_job priority condition title stamp =
    let job = make_job priority ((if condition then 1 else 0) ∷ []) title stamp in
    record job { callback2 = true }

unfoldable pub make_data_job : JobPriorities → List ℕ → Text → Bool → Job
unfolding make_job
make_data_job priority bytes title stamp =
    let job = make_job priority bytes title stamp in record job { callback4 = true }

-- data_[i] = v. `none` is undefined behaviour: an index that the vector does not have.
unfoldable pub store : List ℕ → ℕ → ℕ → Option (List ℕ)
store [] i v = none
store (x ∷ xs) zero v = some (v ∷ xs)
store (x ∷ xs) (suc i) v = elim (store xs i v) [ none ↦ none | some ys ↦ some (x ∷ ys) ]

-- The loop that writes the four bytes of `condition`, its bit pattern given; `left` rounds are left.
unfoldable pub store_bytes : ℕ → ℕ → ℕ → List ℕ → Option (List ℕ)
unfolding store
store_bytes zero i condition bytes = some bytes
store_bytes (suc left) i condition bytes = elim (store bytes i (condition / 2 ^ (i * 8) % 256)) [
  | none ↦ none
  | some bytes' ↦ store_bytes left (i + 1) condition bytes'
]

-- `reserve` leaves the vector empty.
unfoldable pub make_int_job : JobPriorities → ℕ → Text → Bool → Option Job
unfolding make_job store_bytes
make_int_job priority condition title stamp =
    let job = make_job priority [] title stamp in
    elim (store_bytes 4 0 condition job.data_) [
      | none ↦ none
      | some bytes ↦ some (record job { data_ = bytes; callback3 = true })
    ]

unfoldable pub destroy : Files → Job → Files × Job
destroy files job =
    if is_empty job.temporary_file
    then (files, job)
    else (erase job.temporary_file files, record job { temporary_file = [] })

-- File::open and File::read_bytes give the content of a file that is there.
unfoldable pub load : Files → Job → Job
load files job = if is_empty job.temporary_file then job else elim (find job.temporary_file files) [
  | none ↦ record job { data_ = [] }
  | some source_data ↦ record job { data_ = source_data }
]

unfoldable pub backup_extension : JobPriorities → Option Text
backup_extension low = some (codes "low")
backup_extension normal = some (codes "normal")
backup_extension high = some (codes "high")
backup_extension top = some (codes "top")
backup_extension long_term = none

-- `folder` is temp_directory_path() / folder_name, and `guid` is what Generator::guid gave.
unfoldable pub save : Text → Text → Files → Job → Files × Job
unfolding backup_extension
save folder guid files job =
    if is_empty job.data_ then (files, job) else elim (backup_extension job.priority) [
      | none ↦ (files, job)
      | some priority ↦
          let path = folder ++ (codes "/" ++ (guid ++ (codes "." ++ priority))) in
          (assign path job.data_ files, record job { temporary_file = path; data_ = [] })
    ]

-- What `work` calls, with the arguments.
pub data Call : Type 0 where
  void_callback : Call
  bool_callback : Bool → Call
  int_callback : ℕ → Call
  data_callback : List ℕ → Call
  working : Call

-- What a call does: it returns, or it throws an exception with a text, or some other object.
pub data Called : Type 0 where
  returned : Outcome → Called
  threw : Text → Called
  threw_unknown : Called

-- `none` is undefined behaviour: data_[0] of an empty vector, or four bytes copied out of fewer.
unfoldable pub call_of : Job → Option Call
call_of job =
    if job.callback1
    then some void_callback
    else if job.callback2
    then elim job.data_ [ [] ↦ none | x ∷ xs ↦ some (bool_callback (x == 1)) ]
    else if job.callback3
    then (if leb 4 (length job.data_)
        then some (int_callback (le_value (take 4 job.data_)))
        else none)
    else if job.callback4
    then some (data_callback job.data_)
    else some working

abbrev pub failure_text : (Job → Text) → Job → Text → Text
failure_text to_json job what =
    codes "cannot complete "
    ++ (job.title
        ++ (codes " [ "
            ++ (priority_string job.priority
                ++ (codes " ] on Job : " ++ (what ++ (codes ",\n" ++ to_json job))))))

unfoldable pub callback_safe_caller : (Job → Text) → Job → Called → Outcome
callback_safe_caller to_json job (returned outcome) = outcome
callback_safe_caller to_json job (threw what) = (false, some (failure_text to_json job what))
callback_safe_caller to_json job threw_unknown =
    (false, some (failure_text to_json job (codes "unexpected error")))

-- The files and the job that are left, and the result. `to_json` rests on Boost and Crypto++.
unfoldable pub work : (Job → Text) → (Call → Called) → Files → Job → Option (Files × Job × Outcome)
unfolding load destroy call_of callback_safe_caller
work to_json run files job =
    let loaded = load files job in
    elim (call_of loaded) [
      | none ↦ none
      | some call ↦
          let (files', left) = destroy files loaded in
          some (files', left, callback_safe_caller to_json loaded (run call))
    ]
