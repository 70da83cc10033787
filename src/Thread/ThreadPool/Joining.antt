-- ===== src/Thread/ThreadPool/Joining.antt =====
-- The joins of a stop end.
use cpp_toolkit.Prelude.{
  suc, ◌≤◌, ◌≡◌, refl, arith, true, false, Option, none, some, List, [], ◌∷◌, ◌⊎◌, inl, inr,
  Bool-cases,
}
use cpp_toolkit.Thread.JobPriorities.{JobPriorities}
use cpp_toolkit.Thread.Job.{Job, Outcome}
use cpp_toolkit.Thread.JobPool.{JobPool, pop}
use cpp_toolkit.Thread.JobPool.Counts.{size}
use cpp_toolkit.Thread.ThreadWorker
use cpp_toolkit.Thread.ThreadWorker.{ThreadWorker, drain, round, ends, has_job}
use cpp_toolkit.Thread.ThreadWorker.Rounds.{drain_total, drain-Shrinks}
use cpp_toolkit.Thread.ThreadPool.{join, stop_loop}

-- A worker without priorities takes nothing.
nothing_taken :
    (worker : ThreadWorker) (jobs : JobPool)
    → worker.priorities ≡ []
    → worker.thread_stop ≡ true
    → round worker (some jobs) (some jobs) (some jobs) worker.thread_stop ≡ ends
unfolding round pop
nothing_taken worker jobs e stopped = go (Bool-cases (has_job worker (some jobs)))
  where
    go :
        (has_job worker (some jobs) ≡ true) ⊎ (has_job worker (some jobs) ≡ false)
        → round worker (some jobs) (some jobs) (some jobs) worker.thread_stop ≡ ends
    go (inl waits) = rw (round, stopped, waits) (rw e (rw stopped refl))
    go (inr none_waits) = rw (round, stopped, none_waits) refl

-- A worker that is told to stop leaves its loop, one without priorities at once.
drained :
    (worker : ThreadWorker) (jobs : JobPool)
    → worker.thread_stop ≡ true
    → (r : List Job × JobPool) × (drain (suc (size jobs)) worker jobs ≡ some r)
drained worker jobs stopped = go worker.priorities refl
  where
    go :
        (ps : List JobPriorities)
        → worker.priorities ≡ ps
        → (r : List Job × JobPool) × (drain (suc (size jobs)) worker jobs ≡ some r)
    go [] e = (([], jobs), unfold drain in rw (nothing_taken worker jobs e stopped, drain) refl)
    go (p ∷ ps) e =
        let (ran, left, d, done, counted) =
          drain_total (suc (size jobs)) worker p ps jobs e stopped (omega arith) in
        ((ran, left), d)

-- What a join leaves of a pool: no more jobs, and the lock as it was.
abbrev pub JoinedTo : JobPool → JobPool → Type 0
JoinedTo jobs left = (size left ≤ size jobs) × (left.lock_condition ≡ jobs.lock_condition)

-- A join ends: it leaves no more jobs than there were, and the lock as it was.
pub join_ends :
    (worker : ThreadWorker) (jobs : JobPool)
    → (left : JobPool) × (join worker jobs ≡ some left) × JoinedTo jobs left
unfolding join
join_ends worker jobs =
    let told = record worker { thread_stop = true } in
    let (r, e) = drained told jobs refl in
    (r.1, rw (join, e) refl, rw e at (drain-Shrinks (suc (size jobs)) told jobs))

-- So does the loop of stop.
pub stop_loop_ends :
    (workers : List (Option ThreadWorker)) (jobs : JobPool)
    → (r : List (Option ThreadWorker) × JobPool × Option Outcome) × (stop_loop workers jobs
        ≡ some r)
unfolding stop_loop
stop_loop_ends [] jobs = (([], jobs, none), refl)
stop_loop_ends (none ∷ workers) jobs =
    let (r, e) = stop_loop_ends workers jobs in ((none ∷ r.0, r.1, r.2), rw (stop_loop, e) refl)
stop_loop_ends (some worker ∷ workers) jobs = elim (Bool-cases (ThreadWorker.stop worker).1.0) [
  | inl ok ↦
      let (left, j, kept) = join_ends worker jobs in
      let (r, e) = stop_loop_ends workers left in
      ((some (ThreadWorker.stop worker).0 ∷ r.0, r.1, r.2), rw (stop_loop, ok, j, e) refl)
  | inr not_ok ↦ (
    (
      some (ThreadWorker.stop worker).0 ∷ workers,
      jobs,
      some (false, (ThreadWorker.stop worker).1.1),
    ),
    rw (stop_loop, not_ok) refl,
  )
]
