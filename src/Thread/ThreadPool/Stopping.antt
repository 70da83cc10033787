-- ===== src/Thread/ThreadPool/Stopping.antt =====
-- Stopping a pool: where every worker runs, and where one does not.
use cpp_toolkit.Prelude.{
  ℕ, ◌≤◌, ◌≡◌, refl, arith, Bool, true, false, Option, none, some, List, [], ◌∷◌, ◌⊎◌, inl, inr, ap,
  ◌∙◌, Bool-cases, if◌then◌else◌, codes,
}
use cpp_toolkit.Thread.Job.{Job, Files, Outcome}
use cpp_toolkit.Thread.JobPool
use cpp_toolkit.Thread.JobPool.{JobPool, total_count}
use cpp_toolkit.Thread.JobPool.Counts.{size, push-locked}
use cpp_toolkit.Thread.ThreadWorker
use cpp_toolkit.Thread.ThreadWorker.{ThreadWorker, drain}
use cpp_toolkit.Thread.ThreadPool.{ThreadPool, stop, stop_loop, end_stop, push_job}
use cpp_toolkit.Thread.ThreadPool.Starting.{Each}
use cpp_toolkit.Thread.ThreadPool.Joining.{join_ends}

abbrev pub HasThread : ThreadWorker → Type 0
HasThread worker = worker.thread ≡ true

abbrev pub HasNoThread : ThreadWorker → Type 0
HasNoThread worker = worker.thread ≡ false

abbrev Looped : Type 0
Looped = List (Option ThreadWorker) × JobPool × Option Outcome

-- What the loop of `stop` leaves, from a pool of jobs.
abbrev Stopped : JobPool → Looped → Type 0
Stopped jobs (workers, left, failure) =
    (failure ≡ none)
    × Each HasNoThread workers
    × (size left ≤ size jobs)
    × (left.lock_condition ≡ jobs.lock_condition)

stop_one :
    (worker : ThreadWorker)
    → HasThread worker
    → HasNoThread (ThreadWorker.stop worker).0 × ((ThreadWorker.stop worker).1 ≡ (true, none))
unfolding ThreadWorker.stop
stop_one worker h = ground arith

stop_loop-Stopped :
    (workers : List (Option ThreadWorker)) (jobs : JobPool)
    → Each HasThread workers
    → (r : Looped) × (stop_loop workers jobs ≡ some r) × Stopped jobs r
unfolding stop_loop
stop_loop-Stopped [] jobs h = (([], jobs, none), refl, (refl, tt, omega arith, refl))
stop_loop-Stopped (none ∷ workers) jobs h =
    let (r, e, kept) = stop_loop-Stopped workers jobs h in
    ((none ∷ r.0, r.1, r.2), rw (stop_loop, e) refl, kept)
stop_loop-Stopped (some worker ∷ workers) jobs (h, hs) =
    let (idle, ok) = stop_one worker h in
    let (left, joined, (less, same)) = join_ends worker jobs in
    let (r, e, (done, each, fewer, kept)) = stop_loop-Stopped workers left hs in
    (
      (some (ThreadWorker.stop worker).0 ∷ r.0, r.1, r.2),
      rw (stop_loop, ok, joined, e) refl,
      (done, (idle, each), omega arith, kept ∙ same),
    )

end_stop-Stopped :
    (pool : ThreadPool) (jobs : JobPool) (r : List (Option ThreadWorker) × JobPool × Option Outcome)
    → Stopped jobs r
    → ((end_stop pool r).1 ≡ (true, none))
      × ((end_stop pool r).0.working ≡ false)
      × Each HasNoThread (end_stop pool r).0.thread_workers
      × (left : JobPool) × ((end_stop pool r).0.job_pool ≡ some left)
      × (left.lock_condition ≡ false)
      × (size left ≤ size jobs)
unfolding end_stop JobPool.lock size
end_stop-Stopped pool jobs (workers, left, none) (done, each, fewer, kept) =
    (refl, refl, each, JobPool.lock false left, refl, refl, fewer)
end_stop-Stopped pool jobs (workers, left, some o) (done, each, fewer, kept) = absurd (cc done)

-- The pool of jobs that the loop of `stop` begins with.
abbrev begun : Bool → Files → JobPool → JobPool
begun stop_immediately files jobs =
    (if stop_immediately
      then JobPool.clear files (JobPool.lock true jobs)
      else (files, JobPool.lock true jobs)).1

stop_step :
    (immediately : Bool) (files : Files) (pool : ThreadPool) (jobs : JobPool) (r : Looped)
    → pool.working ≡ true
    → pool.job_pool ≡ some jobs
    → stop_loop pool.thread_workers (begun immediately files jobs) ≡ some r
    → (files' : Files) × (stop immediately files pool
        ≡ some (files', (end_stop pool r).0, (end_stop pool r).1))
unfolding stop
stop_step true files pool jobs r working e looped =
    ((JobPool.clear files (JobPool.lock true jobs)).0, ground (arith, looped))
stop_step false files pool jobs r working e looped = (files, ground (arith, looped))

begun_locked :
    (immediately : Bool) (files : Files) (jobs : JobPool)
    → (begun immediately files jobs).lock_condition ≡ true
unfolding JobPool.lock JobPool.clear
begun_locked true files jobs = refl
begun_locked false files jobs = refl

size-begun :
    (immediately : Bool) (files : Files) (jobs : JobPool)
    → size (begun immediately files jobs) ≡ (if immediately then 0 else size jobs)
unfolding JobPool.lock JobPool.clear size total_count
size-begun true files jobs = refl
size-begun false files jobs = refl

-- stop of a pool that works and whose workers all have a thread returns, the join of each worker included, where
-- the workers that are joined drain the pool of jobs one after the other: no thread is left, the pool takes
-- jobs again, and a stop at once leaves no job.
pub stop_total :
    (immediately : Bool) (files : Files) (pool : ThreadPool) (jobs : JobPool)
    → pool.working ≡ true
    → pool.job_pool ≡ some jobs
    → Each HasThread pool.thread_workers
    → (files' : Files) × (stopped : ThreadPool) × (left : JobPool) × (stop immediately files pool
        ≡ some (files', stopped, (true, none)))
      × (stopped.working ≡ false)
      × Each HasNoThread stopped.thread_workers
      × (stopped.job_pool ≡ some left)
      × (left.lock_condition ≡ false)
      × (size left ≤ (if immediately then 0 else size jobs))
stop_total immediately files pool jobs working e threads =
    let from = begun immediately files jobs in
    let (r, looped, kept) = stop_loop-Stopped pool.thread_workers from threads in
    let (files', step) = stop_step immediately files pool jobs r working e looped in
    let (ok, idle, each, left, there, unlocked, fewer) = end_stop-Stopped pool from r kept in
    (
      files',
      (end_stop pool r).0,
      left,
      step ∙ ap (λ o. some (files', (end_stop pool r).0, o)) ok,
      idle,
      each,
      there,
      unlocked,
      rw (← size-begun immediately files jobs) fewer,
    )

-- Some worker has no thread.
abbrev pub SomeWithout : List (Option ThreadWorker) → Type 0
SomeWithout [] = ⊥
SomeWithout (none ∷ workers) = SomeWithout workers
SomeWithout (some worker ∷ workers) = HasNoThread worker ⊎ SomeWithout workers

stop_idle :
    (worker : ThreadWorker)
    → HasNoThread worker
    → (ThreadWorker.stop worker).1 ≡ (false, some (codes "Thread is not running."))
unfolding ThreadWorker.stop
stop_idle worker h = ground arith

abbrev Refused : JobPool → Looped → Type 0
Refused jobs (workers, left, failure) =
    (left.lock_condition ≡ jobs.lock_condition)
    × (error : Option (List ℕ)) × (failure ≡ some (false, error))

stop_loop-Refused :
    (workers : List (Option ThreadWorker)) (jobs : JobPool)
    → SomeWithout workers
    → (r : Looped) × (stop_loop workers jobs ≡ some r) × Refused jobs r
unfolding stop_loop
stop_loop-Refused [] jobs h = absurd h
stop_loop-Refused (none ∷ workers) jobs h =
    let (r, e, kept) = stop_loop-Refused workers jobs h in
    ((none ∷ r.0, r.1, r.2), rw (stop_loop, e) refl, kept)
stop_loop-Refused (some worker ∷ workers) jobs h =
    go (Bool-cases worker.thread) h (stop_loop-Refused workers)
  where
    go :
        (worker.thread ≡ true) ⊎ (worker.thread ≡ false)
        → HasNoThread worker ⊎ SomeWithout workers
        → ((jobs' : JobPool)
            → SomeWithout workers
            → (r : Looped) × (stop_loop workers jobs' ≡ some r) × Refused jobs' r)
        → (r : Looped) × (stop_loop (some worker ∷ workers) jobs ≡ some r) × Refused jobs r
    go (inr idle) h later = (
      (
        some (ThreadWorker.stop worker).0 ∷ workers,
        jobs,
        some (false, some (codes "Thread is not running.")),
      ),
      rw (stop_loop, stop_idle worker idle) refl,
      (refl, _, refl),
    )
    go (inl threaded) (inl idle) later = absurd (ground arith)
    go (inl threaded) (inr rest) later =
        let (left, joined, (less, same)) = join_ends worker jobs in
        let (r, e, (kept, error, failed)) = later left rest in
        (
          (some (ThreadWorker.stop worker).0 ∷ r.0, r.1, r.2),
          rw (stop_loop, (stop_one worker threaded).1, joined, e) refl,
          (kept ∙ same, error, failed),
        )

end_stop-Refused :
    (pool : ThreadPool) (jobs : JobPool) (r : List (Option ThreadWorker) × JobPool × Option Outcome)
    → Refused jobs r
    → (left : JobPool) × (error : Option (List ℕ)) × ((end_stop pool r).1 ≡ (false, error))
      × ((end_stop pool r).0.working ≡ pool.working)
      × ((end_stop pool r).0.job_pool ≡ some left)
      × (left.lock_condition ≡ jobs.lock_condition)
unfolding end_stop
end_stop-Refused pool jobs (workers, left, none) (kept, error, failed) = absurd (cc failed)
end_stop-Refused pool jobs (workers, left, some o) (kept, error, failed) =
    (left, error, cc failed, refl, refl, kept)

push_job-locked :
    (job : Option Job) (pool : ThreadPool) (jobs : JobPool)
    → pool.job_pool ≡ some jobs
    → jobs.lock_condition ≡ true
    → (push_job job pool).1.0 ≡ false
unfolding push_job
push_job-locked job pool jobs e locked = ground (arith, (push-locked job jobs locked).1)

-- A pool that works with a worker that has no thread cannot be stopped: the stop fails, the pool goes on
-- as working, and it refuses every job from then on.
pub stop_refused :
    (immediately : Bool) (files : Files) (pool : ThreadPool) (jobs : JobPool)
    → pool.working ≡ true
    → pool.job_pool ≡ some jobs
    → SomeWithout pool.thread_workers
    → (files' : Files) × (left : ThreadPool) × (error : Option (List ℕ)) × (stop immediately files
          pool
        ≡ some (files', left, (false, error)))
      × (left.working ≡ true)
      × ((job : Option Job) → (push_job job left).1.0 ≡ false)
stop_refused immediately files pool jobs working e without =
    let from = begun immediately files jobs in
    let (r, looped, refused) = stop_loop-Refused pool.thread_workers from without in
    let (files', step) = stop_step immediately files pool jobs r working e looped in
    let (left, error, failed, same, there, kept) = end_stop-Refused pool from r refused in
    (
      files',
      (end_stop pool r).0,
      error,
      step ∙ ap (λ o. some (files', (end_stop pool r).0, o)) failed,
      same ∙ working,
      λ job.
          push_job-locked job (end_stop pool r).0 left there
            (kept ∙ begun_locked immediately files jobs),
    )
