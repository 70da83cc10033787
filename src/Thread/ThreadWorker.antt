-- ===== src/Thread/ThreadWorker.antt =====
-- ThreadPool/ThreadWorker.h and ThreadWorker.cpp. One round of the loop of `run` is a function of the
-- worker and of what it reads of the pool, since other threads pop and push between the readings.
-- Log lines are left out.
pub mod Rounds
pub mod Lifecycle
pub mod Order
use cpp_toolkit.Prelude.{
  ℕ, zero, suc, ◌<◌, Bool, true, false, not, ◌&&◌, Option, none, some, List, [], ◌∷◌, codes,
  if◌then◌else◌, ltb, is_empty,
}
use cpp_toolkit.Thread.JobPriorities.{JobPriorities, contains}
use cpp_toolkit.Thread.Job.{Job, Outcome, Text, Called, returned, threw, threw_unknown}
use cpp_toolkit.Thread.JobPool.{JobPool, pop, job_count}

-- thread_ is set or null; it is joinable as long as it is set. promise_ gives its future once.
pub record ThreadWorker : Type 0 where
  pub thread : Bool
  pub priorities : List JobPriorities
  pub worker_title : Text
  pub pause : Bool
  pub thread_stop : Bool
  pub future_taken : Bool
  pub job_pool : Bool

unfoldable pub make_worker : List JobPriorities → Text → ThreadWorker
make_worker priorities title = record {
  thread = false;
  priorities = priorities;
  worker_title = title;
  pause = false;
  thread_stop = false;
  future_taken = false;
  job_pool = false;
}

-- A member function returns, or a standard library call in it throws.
pub data Returned : Type 0 where
  result : Outcome → Returned
  throws : Returned

-- The thread that is joined has left `run`, which resets thread_stop_.
unfoldable pub stop : ThreadWorker → ThreadWorker × Outcome
stop worker =
    if worker.thread
    then (record worker { thread = false; thread_stop = false }, (true, none))
    else (worker, (false, some (codes "Thread is not running.")))

-- `spawned` tells whether std::thread could be made. get_future throws on its second call.
unfoldable pub start : Bool → ThreadWorker → ThreadWorker × Returned
unfolding stop
start spawned worker =
    let stopped = (stop worker).0 in
    if is_empty stopped.priorities
    then (stopped, result (false, some (codes "cannot start by empty priorities")))
    else if stopped.future_taken
    then (record stopped { thread_stop = false }, throws)
    else if not spawned
    then (
      record stopped { thread_stop = false; future_taken = true },
      result (false, some (codes "Failed to create thread instance.")),
    )
    else (
      record stopped { thread_stop = false; future_taken = true; thread = true },
      result (true, none),
    )

unfoldable pub set_pause : Bool → ThreadWorker → ThreadWorker
set_pause pause worker = record worker { pause = pause }

-- Whether the condition variable is signalled.
unfoldable pub notify_one : JobPriorities → ThreadWorker → Bool
notify_one target worker =
    if not worker.thread
    then false
    else if is_empty worker.priorities
    then false
    else contains target worker.priorities

-- `none` for a pool that is gone.
unfoldable pub has_job : ThreadWorker → Option JobPool → Bool
has_job worker none = true
has_job worker (some pool) = ltb 0 (job_count worker.priorities pool)

unfoldable pub check_condition : ThreadWorker → Option JobPool → Bool
unfolding has_job
check_condition worker pool =
    if worker.thread_stop then true else if worker.pause then false else has_job worker pool

-- What a round of the loop comes to: it goes on waiting, ends the loop, goes on with the next round, or
-- runs a job and leaves a pool.
pub data Round : Type 0 where
  waits ends goes_on : Round
  runs : Job → JobPool → Round

-- `pool_waited`, `pool_tested` and `pool` are the pool at the wait, at the test for the end, and at the
-- pop; `stopping` is what thread_stop_ reads once the lock is given up.
unfoldable pub round :
    ThreadWorker → Option JobPool → Option JobPool → Option JobPool → Bool → Round
unfolding has_job check_condition
round worker pool_waited pool_tested pool stopping =
    if not (check_condition worker pool_waited)
    then waits
    else if worker.thread_stop && not (has_job worker pool_tested)
    then ends
    else if not worker.thread_stop && worker.pause
    then goes_on
    else elim pool [
      | none ↦ ends
      | some jobs ↦
          let (current, left) = pop worker.priorities jobs in
          elim current [ none ↦ if stopping then ends else goes_on | some job ↦ runs job left ]
    ]

-- What do_run returns, by what job->work() does.
unfoldable pub do_run : Called → Bool
do_run (returned (condition, error)) = condition
do_run (threw what) = false
do_run threw_unknown = false

-- The loop of a worker that is told to stop, while nobody else uses the pool, nor a job that it runs: the jobs
-- that it runs, and the pool that it leaves. `none` if the fuel runs out or the worker waits for ever.
unfoldable pub drain : ℕ → ThreadWorker → JobPool → Option (List Job × JobPool)
drain zero worker pool = none
drain (suc fuel) worker pool =
    elim (round worker (some pool) (some pool) (some pool) worker.thread_stop) [
      | waits ↦ none
      | ends ↦ some ([], pool)
      | goes_on ↦ drain fuel worker pool
      | runs job left ↦ elim (drain fuel worker left) [
        | none ↦ none
        | some (jobs, last) ↦ some (job ∷ jobs, last)
      ]
    ]
