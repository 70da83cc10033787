-- ===== src/Thread/ThreadPool/Workers.antt =====
-- Adding and removing workers.
use cpp_toolkit.Prelude.{
  ◌+◌, ◌≡◌, refl, arith, Bool, true, false, Option, none, some, List, [], ◌∷◌, is_empty, ◌⊎◌, inl,
  inr, Bool-cases, if◌then◌else◌, length, ◌==◌, ◌||◌,
}
use cpp_toolkit.Thread.JobPriorities.{JobPriorities, priority_eq, contains}
use cpp_toolkit.Thread.JobPool
use cpp_toolkit.Thread.JobPool.{JobPool}
use cpp_toolkit.Thread.JobPool.Queues.{queue, queue-clear_priority}
use cpp_toolkit.Thread.ThreadWorker.{ThreadWorker}
use cpp_toolkit.Thread.ThreadPool.{ThreadPool, remove_workers, remove_loop, without}
use cpp_toolkit.Thread.ThreadPool.Starting.{Each}

or_false : (b c : Bool) → b ≡ false → c ≡ false → (b || c) ≡ false
or_false b c hb hc = ground arith

contains-without :
    (priority : JobPriorities) (ps : List JobPriorities)
    → contains priority (without priority ps) ≡ false
unfolding contains without
contains-without priority [] = refl
contains-without priority (p ∷ ps) = elim (Bool-cases (p == priority)) [
  | inl same ↦ rw (same, without) (contains-without priority ps)
  | inr other ↦
      rw (other, without) (or_false (p == priority) _ other (contains-without priority ps))
]

-- A worker that is left serves something, and not the priority.
abbrev pub ServesOther : JobPriorities → ThreadWorker → Type 0
ServesOther priority worker =
    (is_empty worker.priorities ≡ false) × (contains priority worker.priorities ≡ false)

remove_loop-ServesOther :
    (priority : JobPriorities) (workers : List (Option ThreadWorker))
    → Each (ServesOther priority) (remove_loop priority workers).0
      × (length (remove_loop priority workers).0 + (remove_loop priority workers).1
          ≡ length workers)
unfolding remove_loop
remove_loop-ServesOther priority [] = (tt, omega arith)
remove_loop-ServesOther priority (none ∷ workers) =
    let (each, counted) = remove_loop-ServesOther priority workers in (each, omega arith)
remove_loop-ServesOther priority (some worker ∷ workers) =
    go (Bool-cases (is_empty (without priority worker.priorities)))
      (remove_loop-ServesOther priority workers)
  where
    go :
        (is_empty (without priority worker.priorities) ≡ true)
          ⊎ (is_empty (without priority worker.priorities) ≡ false)
        → Each (ServesOther priority) (remove_loop priority workers).0
          × (length (remove_loop priority workers).0 + (remove_loop priority workers).1
              ≡ length workers)
        → Each (ServesOther priority) (remove_loop priority (some worker ∷ workers)).0
          × (length (remove_loop priority (some worker ∷ workers)).0
                + (remove_loop priority (some worker ∷ workers)).1
              ≡ length (some worker ∷ workers))
    go (inl e) (each, counted) = rw (e, remove_loop) (each, omega arith)
    go (inr e) (each, counted) =
        rw (e, remove_loop) (((e, contains-without priority worker.priorities), each), omega arith)

-- Removing the workers of a priority empties the queue of that priority and no other; every worker that
-- is left serves some other priority and not this one; and the count that is returned is that of
-- the workers that have gone.
pub remove_workers_lem :
    (priority : JobPriorities) (pool : ThreadPool) (jobs : JobPool)
    → pool.job_pool ≡ some jobs
    → let left = (remove_workers priority pool).0 in
      Each (ServesOther priority) left.thread_workers
      × (length left.thread_workers + (remove_workers priority pool).1 ≡ length pool.thread_workers)
      × (jobs' : JobPool) × (left.job_pool ≡ some jobs')
      × ((p : JobPriorities) → queue p jobs' ≡ (if priority == p then [] else queue p jobs))
unfolding remove_workers
remove_workers_lem priority pool jobs e =
    let (each, counted) = remove_loop-ServesOther priority pool.thread_workers in
    rw (e, remove_workers)
      (
        each,
        counted,
        JobPool.clear_priority priority jobs,
        refl,
        λ p. queue-clear_priority priority p jobs,
      )
