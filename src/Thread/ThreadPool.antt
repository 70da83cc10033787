-- ===== src/Thread/ThreadPool.antt =====
-- ThreadPool/ThreadPool.h and ThreadPool.cpp. Each operation holds the pool's mutex, so it is one
-- function on the state. A thread that is joined takes jobs from the pool until it ends: the model
-- lets each thread do so while it is being joined. `spawns` tells for which workers the system makes a
-- thread. Log lines are left out.
pub mod Starting
pub mod Stopping
pub mod Workers
pub mod Joining
pub mod Jobs
use cpp_toolkit.Prelude.{
  ℕ, zero, suc, ◌+◌, Bool, true, false, not, Option, none, some, List, [], ◌∷◌, ◌++◌, codes,
  if◌then◌else◌, ◌==◌, nat_eq, is_empty,
}
use cpp_toolkit.Utilities.Combiner.{◌>>=◌}
use cpp_toolkit.Thread.JobPriorities.{
  JobPriorities, priority_eq, contains, priority_string, priority_strings,
}
use cpp_toolkit.Thread.Job.{Job, Files, Outcome, Text}
use cpp_toolkit.Thread.JobPool
use cpp_toolkit.Thread.JobPool.{JobPool, make_pool}
use cpp_toolkit.Thread.JobPool.Counts.{size}
use cpp_toolkit.Thread.ThreadWorker
use cpp_toolkit.Thread.ThreadWorker.{ThreadWorker, Returned, result, throws, drain}

pub record ThreadPool : Type 0 where
  pub pause : Bool
  pub working : Bool
  pub thread_title : Text
  pub job_pool : Option JobPool
  pub thread_workers : List (Option ThreadWorker)

unfoldable pub make_thread_pool : Text → ThreadPool
unfolding make_pool
make_thread_pool title =
    let pool = make_pool (codes "JobPool on " ++ title) in
    record {
      pause = false;
      working = false;
      thread_title = title;
      job_pool = some (record pool { notify_callback = true });
      thread_workers = [];
    }

-- The workers whose condition variable notify_callback signals.
unfoldable pub signalled : JobPriorities → List (Option ThreadWorker) → List ThreadWorker
signalled priority [] = []
signalled priority (none ∷ workers) = signalled priority workers
signalled priority (some worker ∷ workers) =
    let rest = signalled priority workers in
    if ThreadWorker.notify_one priority worker then worker ∷ rest else rest

-- push(job), with the workers that it signals.
unfoldable pub push_job : Option Job → ThreadPool → ThreadPool × Outcome × List ThreadWorker
unfolding signalled
push_job job pool = elim pool.job_pool [
  | none ↦ (pool, (false, some (codes "cannot push a job into null JobPool")), [])
  | some jobs ↦
      let (jobs', outcome, notified) = JobPool.push job jobs in
      (
        record pool { job_pool = some jobs' },
        outcome,
        elim notified [ none ↦ [] | some priority ↦ signalled priority pool.thread_workers ],
      )
]

-- push(worker), and whether its start threw.
unfoldable pub push_worker :
    (ThreadWorker → Bool) → Option ThreadWorker → ThreadPool → ThreadPool × Bool
push_worker spawns none pool = (pool, false)
push_worker spawns (some worker) pool =
    let joined = record worker {
      job_pool = true;
      pause = pool.pause;
      worker_title =
          priority_strings worker.priorities ++ (codes " ThreadWorker on " ++ pool.thread_title);
    } in
    let (started, returned) = ThreadWorker.start (spawns joined) joined in
    if pool.working
    then (
      record pool { thread_workers = pool.thread_workers ++ (some started ∷ []) },
      elim returned [ throws ↦ true | result o ↦ false ],
    )
    else (record pool { thread_workers = pool.thread_workers ++ (some joined ∷ []) }, false)

-- The pushes of a create_thread_pool.
abbrev pub push_workers : (ThreadWorker → Bool) → List ThreadWorker → ThreadPool → ThreadPool
push_workers spawns [] pool = pool
push_workers spawns (worker ∷ workers) pool =
    push_workers spawns workers (push_worker spawns (some worker) pool).0

unfoldable pub without : JobPriorities → List JobPriorities → List JobPriorities
without priority [] = []
without priority (p ∷ ps) =
    let rest = without priority ps in if p == priority then rest else p ∷ rest

-- The loop of remove_if: the workers that stay, and the number of those that do not. A worker that is
-- left without priorities pops nothing while it is joined.
unfoldable pub remove_loop :
    JobPriorities → List (Option ThreadWorker) → List (Option ThreadWorker) × ℕ
unfolding without
remove_loop priority [] = ([], 0)
remove_loop priority (none ∷ workers) =
    let (rest, removed) = remove_loop priority workers in (none ∷ rest, removed)
remove_loop priority (some worker ∷ workers) =
    let (rest, removed) = remove_loop priority workers in
    let left = record worker { priorities = without priority worker.priorities } in
    if not (is_empty left.priorities) then (some left ∷ rest, removed) else (rest, suc removed)

unfoldable pub remove_workers : JobPriorities → ThreadPool → ThreadPool × ℕ × Option Text
unfolding remove_loop
remove_workers priority pool = elim pool.job_pool [
  | none ↦ (pool, 0, some (codes "cannot remove workers due to null JobPool"))
  | some jobs ↦
      let (workers, removed) = remove_loop priority pool.thread_workers in
      (
        record pool {
          job_pool = some (JobPool.clear_priority priority jobs);
          thread_workers = workers;
        },
        removed,
        if removed == 0 then some (codes "no worker to remove") else none,
      )
]

unfoldable pub lock : Bool → ThreadPool → ThreadPool
lock condition pool = elim pool.job_pool [
  | none ↦ pool
  | some jobs ↦ record pool { job_pool = some (JobPool.lock condition jobs) }
]

unfoldable pub pause_loop : Bool → List (Option ThreadWorker) → List (Option ThreadWorker)
pause_loop pause [] = []
pause_loop pause (none ∷ workers) = none ∷ pause_loop pause workers
pause_loop pause (some worker ∷ workers) =
    some (ThreadWorker.set_pause pause worker) ∷ pause_loop pause workers

unfoldable pub set_pause : Bool → ThreadPool → ThreadPool
unfolding pause_loop
set_pause pause pool = record pool {
  pause = pause;
  thread_workers = pause_loop pause pool.thread_workers;
}

unfoldable pub title_loop : Text → List (Option ThreadWorker) → List (Option ThreadWorker)
title_loop title [] = []
title_loop title (none ∷ workers) = none ∷ title_loop title workers
title_loop title (some worker ∷ workers) =
    some (record worker { worker_title = title }) ∷ title_loop title workers

unfoldable pub set_title : Text → ThreadPool → ThreadPool
unfolding title_loop
set_title title pool = record pool {
  thread_title = title;
  job_pool = elim pool.job_pool [
    | none ↦ none
    | some jobs ↦ some (record jobs { job_pool_title = title })
  ];
  thread_workers = title_loop title pool.thread_workers;
}

-- The loop of `start`, up to the first worker that fails or throws.
unfoldable pub start_loop :
    (ThreadWorker → Bool)
    → List (Option ThreadWorker)
    → List (Option ThreadWorker) × Option Returned
start_loop spawns [] = ([], none)
start_loop spawns (none ∷ workers) =
    let (rest, failure) = start_loop spawns workers in (none ∷ rest, failure)
start_loop spawns (some worker ∷ workers) =
    let (rest, failure) = start_loop spawns workers in
    let (started, returned) = ThreadWorker.start (spawns worker) worker in
    elim returned [
      | throws ↦ (some started ∷ workers, some throws)
      | result (true, error) ↦ (some started ∷ rest, failure)
      | result (false, error) ↦ (some started ∷ workers, some (result (false, error)))
    ]

-- What `start` does behind its loop.
unfoldable pub end_start :
    ThreadPool → List (Option ThreadWorker) × Option Returned → ThreadPool × Returned
end_start pool (workers, none) =
    (record pool { thread_workers = workers; working = true }, result (true, none))
end_start pool (workers, some returned) = (record pool { thread_workers = workers }, returned)

unfoldable pub start : (ThreadWorker → Bool) → ThreadPool → ThreadPool × Returned
start spawns pool =
    if pool.working
    then (pool, result (false, some (codes "already started")))
    else end_start pool (start_loop spawns pool.thread_workers)

-- The pool once the thread of `worker`, told to stop, has ended, while the other workers rest. `none`: it does
-- not end, and the join waits for ever.
unfoldable pub join : ThreadWorker → JobPool → Option JobPool
unfolding drain
join worker jobs =
    drain (suc (size jobs)) (record worker { thread_stop = true }) jobs
    >>= (λ drained. some drained.1)

-- The loop of `stop`, up to the first worker that cannot be stopped. `none`: a join waits for ever.
unfoldable pub stop_loop :
    List (Option ThreadWorker)
    → JobPool
    → Option (List (Option ThreadWorker) × JobPool × Option Outcome)
unfolding join
stop_loop [] jobs = some ([], jobs, none)
stop_loop (none ∷ workers) jobs = stop_loop workers jobs >>= (λ r. some (none ∷ r.0, r.1, r.2))
stop_loop (some worker ∷ workers) jobs =
    let (stopped, outcome) = ThreadWorker.stop worker in
    if outcome.0
    then (join worker jobs
        >>= (λ left. stop_loop workers left >>= (λ r. some (some stopped ∷ r.0, r.1, r.2))))
    else some (some stopped ∷ workers, jobs, some (false, outcome.1))

-- What `stop` does behind its loop.
unfoldable pub end_stop :
    ThreadPool → List (Option ThreadWorker) × JobPool × Option Outcome → ThreadPool × Outcome
end_stop pool (workers, left, none) = (
  record pool {
    thread_workers = workers;
    job_pool = some (JobPool.lock false left);
    working = false;
  },
  (true, none),
)
end_stop pool (workers, left, some outcome) =
    (record pool { thread_workers = workers; job_pool = some left }, outcome)

-- stop(stop_immediately). `none`: job_pool_ is null, which is undefined behaviour, or a join waits for ever.
unfoldable pub stop : Bool → Files → ThreadPool → Option (Files × ThreadPool × Outcome)
stop stop_immediately files pool =
    if not pool.working
    then some (files, pool, (false, some (codes "not started")))
    else elim pool.job_pool [
      | none ↦ none
      | some jobs ↦
          let locked = JobPool.lock true jobs in
          let (files', cleared) =
            if stop_immediately then JobPool.clear files locked else (files, locked) in
          stop_loop pool.thread_workers cleared
          >>= (λ r. let (stopped, outcome) = end_stop pool r in some (files', stopped, outcome))
    ]
