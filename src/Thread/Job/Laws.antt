-- ===== src/Thread/Job/Laws.antt =====
-- What a job keeps through its file and its calls.
use Prim.Native.String.{String}
use cpp_toolkit.Prelude.{
  ℕ, ◌≡◌, refl, arith, Bool, true, false, none, some, [], ◌∷◌, ◌++◌, codes, ◌≢◌, bytes_eq, is_empty,
  eq_refl,
}
use cpp_toolkit.Prelude.Map.{find, find-assign, find-erase}
use cpp_toolkit.Thread.JobPriorities.{JobPriorities, long_term}
use cpp_toolkit.Thread.Job.{
  Job, Files, Text, Outcome, Call, Called, bool_callback, make_bool_job, make_int_job, load, save,
  work, call_of,
}

-- The path that `save` makes is not empty, since it holds a slash.
append-ne-empty : (xs ys : Text) (c : ℕ) → is_empty (xs ++ (c ∷ ys)) ≡ false
append-ne-empty [] ys c = refl
append-ne-empty (x ∷ xs) ys c = refl

-- Loading a job that was saved gives the job back, with the path of its file noted: for every job
-- with data, of any priority but LongTerm.
pub load-save :
    (folder guid : Text) (files : Files) (job : Job)
    → job.data_ ≢ []
    → job.priority ≢ long_term
    → let (files', saved) = save folder guid files job in
      (saved.data_ ≡ [])
      × (is_empty saved.temporary_file ≡ false)
      × (load files' saved ≡ record job { temporary_file = saved.temporary_file })
unfolding load save
load-save folder guid files job filled short = ground (
  arith,
  find-assign (path_at "top") (path_at "top") job.data_ files,
  find-assign (path_at "high") (path_at "high") job.data_ files,
  find-assign (path_at "normal") (path_at "normal") job.data_ files,
  find-assign (path_at "low") (path_at "low") job.data_ files,
  eq_refl (path_at "top"),
  eq_refl (path_at "high"),
  eq_refl (path_at "normal"),
  eq_refl (path_at "low"),
  append-ne-empty folder (guid ++ (codes "." ++ codes "top")) b'/',
  append-ne-empty folder (guid ++ (codes "." ++ codes "high")) b'/',
  append-ne-empty folder (guid ++ (codes "." ++ codes "normal")) b'/',
  append-ne-empty folder (guid ++ (codes "." ++ codes "low")) b'/',
)
  where
    path_at : String → Text
    path_at extension = folder ++ (codes "/" ++ (guid ++ (codes "." ++ codes extension)))

-- Whatever the call does, `work` leaves neither the file of the job nor its path.
pub work_destroys :
    (to_json : Job → Text) (run : Call → Called) (files : Files) (job : Job)
    → (is_empty job.temporary_file ≡ false)
    → (files' : Files) (left : Job) (outcome : Outcome)
    → work to_json run files job ≡ some (files', left, outcome)
    → (find job.temporary_file files' ≡ none) × (left.temporary_file ≡ [])
unfolding work
work_destroys to_json run files job backed files' left outcome e =
    ground
      (arith, find-erase job.temporary_file job.temporary_file files, eq_refl job.temporary_file)

-- The callback of a job on a Boolean is called with that Boolean.
pub call_of-make_bool_job :
    (priority : JobPriorities) (condition : Bool) (title : Text) (stamp : Bool)
    → call_of (make_bool_job priority condition title stamp) ≡ some (bool_callback condition)
unfolding call_of make_bool_job
call_of-make_bool_job priority true title stamp = refl
call_of-make_bool_job priority false title stamp = refl

-- Every construction of a job on an integer writes behind the end of an empty vector.
pub make_int_job_undefined :
    (priority : JobPriorities) (condition : ℕ) (title : Text) (stamp : Bool)
    → make_int_job priority condition title stamp ≡ none
unfolding make_int_job
make_int_job_undefined priority condition title stamp = refl
