-- ===== src/Thread/JobPool.antt =====
-- ThreadPool/JobPool.h and JobPool.cpp: jobs wait in one queue for each priority. Each operation runs
-- under the pool's mutex, so it is one function on the state. push stores only jobs, never a null
-- pointer, so the queues hold jobs and the null test of pop cannot succeed. Log lines are left out.
pub mod Queues
pub mod Counts
pub mod Sorted
pub mod Refinement
pub mod Backups
use cpp_toolkit.Prelude.{
  ℕ, zero, ◌+◌, Bool, true, false, Option, none, some, List, [], ◌∷◌, ◌++◌, codes, if◌then◌else◌,
  length, bytes_eq,
}
use cpp_toolkit.Prelude.Map.{find, assign, insert, erase}
use cpp_toolkit.Thread.JobPriorities.{JobPriorities, priority_eq}
use cpp_toolkit.Thread.Job.{Job, Files, Outcome, Text, destroy}

-- notify_callback is set or null: a call of it is reported by the operation that makes it.
pub record JobPool : Type 0 where
  pub job_pool_title : Text
  pub lock_condition : Bool
  pub notify_callback : Bool
  pub job_queues : List (JobPriorities × List Job)

unfoldable pub make_pool : Text → JobPool
make_pool title = record {
  job_pool_title = title;
  lock_condition = false;
  notify_callback = false;
  job_queues = [];
}

unfoldable pub destroy_jobs : Files → List Job → Files
unfolding destroy
destroy_jobs files [] = files
destroy_jobs files (job ∷ jobs) =
    destroy_jobs (destroy files (record job { job_pool = false })).0 jobs

unfoldable pub destroy_queues : Files → List (JobPriorities × List Job) → Files
unfolding destroy_jobs
destroy_queues files [] = files
destroy_queues files ((priority, jobs) ∷ queues) = destroy_queues (destroy_jobs files jobs) queues

-- clear(void).
unfoldable pub clear : Files → JobPool → Files × JobPool
unfolding destroy_queues
clear files pool = (destroy_queues files pool.job_queues, record pool { job_queues = [] })

-- clear(priority).
unfoldable pub clear_priority : JobPriorities → JobPool → JobPool
clear_priority priority pool = record pool { job_queues = erase priority pool.job_queues }

unfoldable pub enqueue : Job → List (JobPriorities × List Job) → List (JobPriorities × List Job)
unfolding find assign insert
enqueue job queues = elim (find job.priority queues) [
  | some queue ↦ assign job.priority (queue ++ (job ∷ [])) queues
  | none ↦ insert job.priority (job ∷ []) queues
]

-- The pool, the result, and the priority that notify_callback_ is called with, if it is.
unfoldable pub push : Option Job → JobPool → JobPool × Outcome × Option JobPriorities
unfolding enqueue
push none pool = (pool, (false, some (codes "cannot push empty job")), none)
push (some job) pool =
    if pool.lock_condition
    then (pool, (false, some (codes "the system is locked and new tasks cannot be created")), none)
    else (
      record pool { job_queues = enqueue (record job { job_pool = true }) pool.job_queues },
      (true, none),
      (if pool.notify_callback then some job.priority else none),
    )

unfoldable pub pop_queues :
    List JobPriorities
    → List (JobPriorities × List Job)
    → Option Job × List (JobPriorities × List Job)
unfolding find assign
pop_queues [] queues = (none, queues)
pop_queues (priority ∷ priorities) queues =
    let rest = pop_queues priorities queues in
    elim (find priority queues) [
      | none ↦ rest
      | some [] ↦ rest
      | some (job ∷ queue) ↦ (some job, assign priority queue queues)
    ]

unfoldable pub pop : List JobPriorities → JobPool → Option Job × JobPool
unfolding pop_queues
pop [] pool = (none, pool)
pop (p ∷ ps) pool =
    let (job, queues) = pop_queues (p ∷ ps) pool.job_queues in
    (job, record pool { job_queues = queues })

unfoldable pub total_count : List (JobPriorities × List Job) → ℕ
total_count [] = 0
total_count ((priority, queue) ∷ queues) = length queue + total_count queues

unfoldable pub listed_count : List JobPriorities → List (JobPriorities × List Job) → ℕ
unfolding find
listed_count [] queues = 0
listed_count (priority ∷ priorities) queues =
    elim (find priority queues) [ none ↦ 0 | some queue ↦ length queue ]
    + listed_count priorities queues

-- No priorities stand for all of them.
unfoldable pub job_count : List JobPriorities → JobPool → ℕ
unfolding total_count listed_count
job_count [] pool = total_count pool.job_queues
job_count (p ∷ ps) pool = listed_count (p ∷ ps) pool.job_queues

unfoldable pub lock : Bool → JobPool → JobPool
lock condition pool = record pool { lock_condition = condition }
