-- ===== src/Tests/OfThread.antt =====
-- The theorems on ThreadPool/ at concrete inputs.
use cpp_toolkit.Prelude.{
  ◌+◌, ◌<◌, ◌≤◌, ◌≡◌, refl, arith, Bool, true, false, none, some, List, [], ◌∷◌, codes,
  if◌then◌else◌, bytes_eq, length,
}
use cpp_toolkit.Prelude.Map.{find}
use cpp_toolkit.Thread.JobPriorities.{
  JobPriorities, top, high, normal, low, long_term, priority_eq, contains,
}
use cpp_toolkit.Thread.Job.{Job, Text, Files, Call, Called, returned}
use cpp_toolkit.Thread.JobPool.{JobPool, pop, job_count, total_count}
use cpp_toolkit.Thread.JobPool.Queues.{queue, Takes, pop-Takes}
use cpp_toolkit.Thread.JobPool.Counts.{size}
use cpp_toolkit.Thread.JobPool.Sorted.{IsSorted, AllAt}
use cpp_toolkit.Thread.JobPool.Refinement.{put, get, drop_at, run, spec_run, view, run_refines}
use cpp_toolkit.Thread.ThreadWorker.Order.{jobs_at, drain_serves}
use cpp_toolkit.Thread.ThreadWorker
use cpp_toolkit.Thread.ThreadWorker.{
  ThreadWorker, Returned, result, throws, Round, runs, ends, round, drain,
}
use cpp_toolkit.Thread.ThreadWorker.Rounds.{drain_total}
use cpp_toolkit.Thread.ThreadPool
use cpp_toolkit.Thread.ThreadPool.{ThreadPool, push_job, remove_workers}
use cpp_toolkit.Thread.ThreadPool.Starting.{Each}
use cpp_toolkit.Thread.ThreadPool.Stopping.{HasNoThread, stop_total}

abbrev a_job : Job
a_job = record {
  title = codes "job";
  use_time_stamp = true;
  data_ = 1 ∷ 2 ∷ [];
  temporary_file = [];
  priority = high;
  job_pool = false;
  callback1 = false;
  callback2 = false;
  callback3 = false;
  callback4 = true;
}

abbrev saved_job : Job
saved_job = record a_job { data_ = []; temporary_file = codes "/tmp/g.high" }

abbrev some_files : Files
some_files = (codes "/tmp/g.high", 1 ∷ 2 ∷ []) ∷ []

abbrev succeeds : Call → Called
succeeds call = returned (true, none)

abbrev no_files : Files
no_files = []

abbrev loaded_job : Job
loaded_job = record saved_job { data_ = 1 ∷ 2 ∷ []; temporary_file = [] }

abbrev no_json : Job → Text
no_json job = []

abbrev a_pool : JobPool
a_pool = record {
  job_pool_title = codes "pool";
  lock_condition = false;
  notify_callback = true;
  job_queues = (high, a_job ∷ []) ∷ [];
}

abbrev locked_pool : JobPool
locked_pool = record a_pool { lock_condition = true }

pop-Takes_example : Takes (low ∷ high ∷ []) a_pool (pop (low ∷ high ∷ []) a_pool)
pop-Takes_example = pop-Takes (low ∷ high ∷ []) a_pool

a_pool-IsSorted : IsSorted a_pool
unfolding queue find
a_pool-IsSorted = record { at_own_priority = at }
  where
    at : (p : JobPriorities) → AllAt p (queue p a_pool)
    at top = tt
    at high = (refl, tt)
    at normal = tt
    at low = tt
    at long_term = tt

abbrev a_worker : ThreadWorker
a_worker = record {
  thread = false;
  priorities = high ∷ low ∷ [];
  worker_title = codes "worker";
  pause = false;
  thread_stop = false;
  future_taken = false;
  job_pool = true;
}

abbrev running_worker : ThreadWorker
running_worker = record a_worker { thread = true; future_taken = true }

abbrev told_worker : ThreadWorker
told_worker = record running_worker { thread_stop = true }

abbrev spent_worker : ThreadWorker
spent_worker = record a_worker { future_taken = true }

abbrev popped_pool : JobPool
popped_pool = record a_pool { job_queues = (high, []) ∷ [] }

a_pool-size : size a_pool < 2
unfolding size total_count
a_pool-size = omega arith

drain_total_example :
    (jobs : List Job) × (left : JobPool) × (drain 2 told_worker a_pool ≡ some (jobs, left))
    × (job_count told_worker.priorities left ≡ 0)
    × (length jobs + size left ≡ size a_pool)
drain_total_example = drain_total 2 told_worker high (low ∷ []) a_pool refl refl a_pool-size

abbrev all_spawn : ThreadWorker → Bool
all_spawn worker = true

abbrev idle_pool : ThreadPool
idle_pool = record {
  pause = false;
  working = false;
  thread_title = codes "threads";
  job_pool = some a_pool;
  thread_workers = some a_worker ∷ [];
}

abbrev working_pool : ThreadPool
working_pool = record idle_pool { working = true; thread_workers = some running_worker ∷ [] }

abbrev broken_pool : ThreadPool
broken_pool = record idle_pool { working = true }

abbrev stopped_pool : ThreadPool
stopped_pool = record idle_pool { thread_workers = some spent_worker ∷ [] }

pool_starts : (ThreadPool.start all_spawn idle_pool).1 ≡ result (true, none)
unfolding ThreadPool.start ThreadPool.start_loop ThreadPool.end_start ThreadWorker.start
    ThreadWorker.stop
pool_starts = refl

drain_serves_example :
    (jobs : List Job) × (left : JobPool) × (drain 2 told_worker a_pool ≡ some (jobs, left))
    × ((q : JobPriorities)
        → contains q told_worker.priorities ≡ true
        → jobs_at q jobs ≡ queue q a_pool)
drain_serves_example =
    drain_serves 2 told_worker high (low ∷ []) a_pool refl refl a_pool-IsSorted a_pool-size

run_refines_example :
    run a_pool (get (high ∷ []) ∷ put (some a_job) ∷ drop_at high ∷ get (high ∷ []) ∷ [])
    ≡ spec_run
        (view a_pool)
        (get (high ∷ []) ∷ put (some a_job) ∷ drop_at high ∷ get (high ∷ []) ∷ [])
run_refines_example =
    run_refines (get (high ∷ []) ∷ put (some a_job) ∷ drop_at high ∷ get (high ∷ []) ∷ []) a_pool

stop_total_example :
    (files' : Files) × (stopped : ThreadPool) × (left : JobPool) × (ThreadPool.stop true some_files
        working_pool
      ≡ some (files', stopped, (true, none)))
    × (stopped.working ≡ false)
    × Each HasNoThread stopped.thread_workers
    × (stopped.job_pool ≡ some left)
    × (left.lock_condition ≡ false)
    × (size left ≤ (if true then 0 else size a_pool))
stop_total_example = stop_total true some_files working_pool a_pool refl refl (refl, tt)
