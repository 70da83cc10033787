-- ===== src/Network/SendingFiles/Queued.antt =====
-- What waits in the pool after the loop of send_files.
use mathlib.Core.List.{append-nil, append_assoc}
use cpp_toolkit.Prelude.{
  ℕ, suc, ◌≡◌, refl, sym, ap, ◌∙◌, arith, true, false, none, some, List, [], ◌∷◌, ◌++◌,
  if◌then◌else◌, ◌==◌, Bool-cases, inl, inr,
}
use cpp_toolkit.Thread.JobPriorities.{JobPriorities, low, priority_eq}
use cpp_toolkit.Thread.Job.{Job, Text, make_job}
use cpp_toolkit.Thread.JobPool.{JobPool, push}
use cpp_toolkit.Thread.JobPool.Queues.{queue, queue-push}
use cpp_toolkit.Thread.ThreadPool.{ThreadPool, push_job}
use cpp_toolkit.Network.SendingFiles.{file_job, push_files}

-- The jobs of the files, numbered from `index`, as they wait in a pool.
abbrev pub file_jobs : Text → ℕ → List (Text × Text) → List Job
file_jobs guid index [] = []
file_jobs guid index (information ∷ rest) =
    record (file_job guid index information) { job_pool = true } ∷ file_jobs guid (suc index) rest

abbrev pub at_low : JobPriorities → List Job → List Job
at_low p jobs = if low == p then jobs else []

at_low_nil : (p : JobPriorities) → at_low p [] ≡ []
at_low_nil p = ground arith

at_low_cons :
    (p : JobPriorities) (old : List Job) (job : Job) (jobs : List Job)
    → (if low == p then old ++ (job ∷ []) else old) ++ at_low p jobs ≡ old ++ at_low p (job ∷ jobs)
at_low_cons p old job jobs = elim (Bool-cases (low == p)) [
  | inl here ↦ rw here (append_assoc old (job ∷ []) jobs)
  | inr there ↦ rw there refl
]

job_priority : (guid : Text) (index : ℕ) (f : Text × Text) → (file_job guid index f).priority ≡ low
unfolding file_job make_job
job_priority guid index f = refl

push_unlocked :
    (job : Job) (jobs : JobPool)
    → jobs.lock_condition ≡ false
    → (push (some job) jobs).0.lock_condition ≡ false
unfolding push
push_unlocked job jobs unlocked = ground arith

push_job_into :
    (job : Job) (pool : ThreadPool) (jobs : JobPool)
    → pool.job_pool ≡ some jobs
    → jobs.lock_condition ≡ false
    → ((push_job (some job) pool).0.job_pool ≡ some (push (some job) jobs).0)
      × ((push_job (some job) pool).1 ≡ (true, none))
unfolding push_job
push_job_into job pool jobs e unlocked =
    (rw e refl, rw (push_job, e) ((queue-push job jobs low unlocked).0))

-- The loop of send_files on a pool that is not locked says success, and has put one job for each file,
-- numbered in their order, behind those that wait at the priority Low; all other queues are as they were.
pub queue-push_files :
    (guid : Text) (index : ℕ) (files : List (Text × Text)) (pool : ThreadPool) (jobs : JobPool)
    (p : JobPriorities)
    → pool.job_pool ≡ some jobs
    → jobs.lock_condition ≡ false
    → let (pool', outcome) = push_files guid index files pool in
      (jobs' : JobPool) × (pool'.job_pool ≡ some jobs')
      × (outcome ≡ (true, none))
      × (queue p jobs' ≡ queue p jobs ++ at_low p (file_jobs guid index files))
unfolding push_files
queue-push_files guid index [] pool jobs p e unlocked =
    (jobs, e, refl, sym (ap (λ x. queue p jobs ++ x) (at_low_nil p) ∙ append-nil (queue p jobs)))
queue-push_files guid index (f ∷ files) pool jobs p e unlocked =
    let job = file_job guid index f in
    let (into, says) = push_job_into job pool jobs e unlocked in
    let jobs1 = (push (some job) jobs).0 in
    let (jobs', e', outcome, all) =
      queue-push_files guid (suc index) files (push_job (some job) pool).0 jobs1 p into
        (push_unlocked job jobs unlocked) in
    let stored = queue p jobs ++ (record job { job_pool = true } ∷ []) in
    let placed : queue p jobs1 ≡ (if low == p then stored else queue p jobs) =
      (queue-push job jobs p unlocked).2
      ∙ ap (λ r. if r == p then stored else queue p jobs) (job_priority guid index f) in
    rw says (
      jobs',
      e',
      outcome,
      all
          ∙ ap (λ x. x ++ at_low p (file_jobs guid (suc index) files)) placed
          ∙ at_low_cons p (queue p jobs) (record job { job_pool = true })
              (file_jobs guid (suc index) files),
    )
