-- ===== src/Thread/ThreadPool/Jobs.antt =====
-- A thread pool that has its pool of jobs keeps it, and its stop is defined.
use cpp_toolkit.Prelude.{◌≡◌, ◌≢◌, refl, arith, Bool, true, Option, none, some, List, [], ◌∷◌}
use cpp_toolkit.Thread.Job.{Job, Files}
use cpp_toolkit.Thread.JobPool
use cpp_toolkit.Thread.JobPool.{JobPool}
use cpp_toolkit.Thread.ThreadWorker.{ThreadWorker}
use cpp_toolkit.Thread.ThreadPool
use cpp_toolkit.Thread.ThreadPool.{ThreadPool, push_worker, push_workers, push_job, end_start}
use cpp_toolkit.Thread.ThreadPool.Joining.{stop_loop_ends}

-- The pool of jobs is there: without it ThreadPool::stop is undefined.
abbrev pub HasJobs : ThreadPool → Type 0
HasJobs pool = (jobs : JobPool) × (pool.job_pool ≡ some jobs)

pub some_of {ℓ} : {A : Type ℓ} (o : Option A) → o ≢ none → (a : A) × (o ≡ some a)
some_of none h = absurd (h refl)
some_of (some a) h = (a, refl)

pub stop_defined :
    (immediately : Bool) (files : Files) (pool : ThreadPool)
    → HasJobs pool
    → ThreadPool.stop immediately files pool ≢ none
unfolding ThreadPool.stop
stop_defined immediately files pool (jobs, e) = ground (
  arith,
  (stop_loop_ends pool.thread_workers (JobPool.lock true jobs)).1,
  (stop_loop_ends pool.thread_workers (JobPool.clear files (JobPool.lock true jobs)).1).1,
)

pub lock-HasJobs : (pool : ThreadPool) → HasJobs pool → HasJobs (ThreadPool.lock true pool)
unfolding ThreadPool.lock
lock-HasJobs pool (jobs, e) = (JobPool.lock true jobs, rw e refl)

pub start-HasJobs :
    (spawns : ThreadWorker → Bool) (pool : ThreadPool)
    → HasJobs pool
    → HasJobs (ThreadPool.start spawns pool).0
unfolding ThreadPool.start end_start
start-HasJobs spawns pool (jobs, e) = (jobs, ground arith)

pub push_worker-HasJobs :
    (spawns : ThreadWorker → Bool) (worker : ThreadWorker) (pool : ThreadPool)
    → HasJobs pool
    → HasJobs (push_worker spawns (some worker) pool).0
unfolding push_worker
push_worker-HasJobs spawns worker pool (jobs, e) = (jobs, ground arith)

pub push_job-HasJobs :
    (job : Job) (pool : ThreadPool) → HasJobs pool → HasJobs (push_job (some job) pool).0
unfolding push_job
push_job-HasJobs job pool (jobs, e) = ((JobPool.push (some job) jobs).0, rw e refl)

-- A thread pool, if it is there, has its pool of jobs.
abbrev pub IsSound : Option ThreadPool → Type 0
IsSound none = Unit {0}
IsSound (some pool) = HasJobs pool

pub push_workers-HasJobs :
    (spawns : ThreadWorker → Bool) (workers : List ThreadWorker) (pool : ThreadPool)
    → HasJobs pool
    → HasJobs (push_workers spawns workers pool)
push_workers-HasJobs spawns [] pool h = h
push_workers-HasJobs spawns (w ∷ ws) pool h =
    push_workers-HasJobs spawns ws (push_worker spawns (some w) pool).0
      (push_worker-HasJobs spawns w pool h)
