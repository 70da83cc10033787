-- ===== src/Thread/ThreadWorker/Order.antt =====
-- Which jobs a worker that is told to stop runs, and in which order.
use mathlib.Core.List.{append-nil}
use cpp_toolkit.Prelude.{
  ℕ, zero, suc, ◌<◌, ◌≡◌, refl, sym, ap, ◌∙◌, arith, true, Option, none, some, List, [], ◌∷◌, ◌++◌,
  inl, inr, Bool-cases, if◌then◌else◌, ◌==◌, eq_of_test,
}
use cpp_toolkit.Thread.JobPriorities.{JobPriorities, priority_eq, contains}
use cpp_toolkit.Thread.Job.{Job}
use cpp_toolkit.Thread.JobPool.{JobPool, job_count, listed_count}
use cpp_toolkit.Thread.JobPool.Queues.{queue, Takes, pop-Takes, List-cases}
use cpp_toolkit.Thread.JobPool.Counts.{size}
use cpp_toolkit.Thread.JobPool.Sorted.{IsSorted, AllAt, pop-IsSorted}
use cpp_toolkit.Thread.ThreadWorker.{ThreadWorker, Round, waits, ends, goes_on, runs, round, drain}
use cpp_toolkit.Thread.ThreadWorker.Rounds.{round_runs, drain_total}

-- The jobs of a priority among these, in their order.
abbrev pub jobs_at : JobPriorities → List Job → List Job
jobs_at p [] = []
jobs_at p (job ∷ jobs) = let rest = jobs_at p jobs in if job.priority == p then job ∷ rest else rest

-- A job that is taken was the first of its queue.
abbrev IsFirst : JobPool → Job → JobPool → Type 0
IsFirst pool job left =
    (p : JobPriorities)
    → queue p pool ≡ (if job.priority == p then job ∷ queue p left else queue p left)

Takes-IsFirst :
    (ps : List JobPriorities) (pool left : JobPool) (job : Job)
    → Takes ps pool (some job, left)
    → IsSorted pool
    → IsFirst pool job left
Takes-IsFirst [] pool left job t v = absurd (ground arith)
Takes-IsFirst (q ∷ ps) pool left job t v = elim (List-cases (queue q pool)) [
  | inl e ↦ Takes-IsFirst ps pool left job (rw (e, Takes) at t) v
  | inr (first, jobs, e) ↦
      let h : (some job ≡ some first)
          × ((k : JobPriorities) → queue k left ≡ (if q == k then jobs else queue k pool)) =
        (rw (e, Takes) at t) in
      let same : job ≡ first = cc in
      let own : AllAt q (first ∷ jobs) = rw e at (v.at_own_priority q) in
      λ p. hit q p pool left first jobs e own.0 (h.1 p) ∙ rw same refl
]
  where
    hit :
        (q p : JobPriorities) (pool left : JobPool) (first : Job) (jobs : List Job)
        → queue q pool ≡ first ∷ jobs
        → first.priority ≡ q
        → queue p left ≡ (if q == p then jobs else queue p pool)
        → queue p pool ≡ (if first.priority == p then first ∷ queue p left else queue p left)
    hit q p pool left first jobs e own h = elim (Bool-cases (q == p)) [
      | inl same ↦ ground (arith, eq_of_test q p same, priority_eq.beq_iff first.priority p)
      | inr other ↦ ground (arith, priority_eq.beq_iff first.priority p, priority_eq.beq_iff q p)
    ]

-- What a loop of rounds leaves: at each priority the jobs that it has run, and behind them those that
-- still wait.
abbrev InOrder : JobPool → Option (List Job × JobPool) → Type 0
InOrder pool none = Unit {0}
InOrder pool (some (jobs, left)) =
    (p : JobPriorities) → jobs_at p jobs ++ queue p left ≡ queue p pool

InOrder-cons :
    (pool left : JobPool) (job : Job) (r : Option (List Job × JobPool))
    → IsFirst pool job left
    → InOrder left r
    → InOrder pool (elim r [ none ↦ none | some (jobs, last) ↦ some (job ∷ jobs, last) ])
InOrder-cons pool left job none f h = tt
InOrder-cons pool left job (some (jobs, last)) f h = λ p. ground (arith, f p, h p)

drain-InOrder :
    (fuel : ℕ) (worker : ThreadWorker) (pool : JobPool)
    → IsSorted pool
    → InOrder pool (drain fuel worker pool)
unfolding drain
drain-InOrder zero worker pool v = tt
drain-InOrder (suc fuel) worker pool v =
    go (round worker (some pool) (some pool) (some pool) worker.thread_stop) refl
      (drain-InOrder fuel worker)
  where
    go :
        (r : Round)
        → round worker (some pool) (some pool) (some pool) worker.thread_stop ≡ r
        → ((left : JobPool) → IsSorted left → InOrder left (drain fuel worker left))
        → InOrder pool (drain (suc fuel) worker pool)
    go waits e later = rw (e, drain) tt
    go ends e later = rw (e, drain) (λ p. refl)
    go goes_on e later = rw (e, drain) (later pool v)
    go (runs job left) e later =
        let popped =
          (round_runs worker (some pool) (some pool) pool left worker.thread_stop job e).0 in
        let taken : Takes worker.priorities pool (some job, left) =
          rw popped at (pop-Takes worker.priorities pool) in
        let sorted = (rw popped at (pop-IsSorted worker.priorities pool v)).0 in
        rw (e, drain)
          (InOrder-cons pool left job (drain fuel worker left)
            (Takes-IsFirst worker.priorities pool left job taken v) (later left sorted))

none_waiting :
    (p : JobPriorities) (ps : List JobPriorities) (pool : JobPool)
    → listed_count ps pool.job_queues ≡ 0
    → contains p ps ≡ true
    → queue p pool ≡ []
unfolding queue listed_count contains
none_waiting p [] pool z c = absurd (ground arith)
none_waiting p (q ∷ ps) pool z c = ground (arith, none_waiting p ps pool, priority_eq.beq_iff q p)

-- A worker with priorities that is told to stop, and has a sorted pool to itself, its jobs pushing none while
-- they run, runs every job that waits at one of its priorities, and at each priority in the order in which they were pushed.
pub drain_serves :
    (fuel : ℕ) (worker : ThreadWorker) (p : JobPriorities) (ps : List JobPriorities)
    (pool : JobPool)
    → worker.priorities ≡ p ∷ ps
    → worker.thread_stop ≡ true
    → IsSorted pool
    → size pool < fuel
    → (jobs : List Job) × (left : JobPool) × (drain fuel worker pool ≡ some (jobs, left))
      × ((q : JobPriorities) → contains q worker.priorities ≡ true → jobs_at q jobs ≡ queue q pool)
drain_serves fuel worker p ps pool listed stopped v h =
    let (jobs, left, d, z, counted) = drain_total fuel worker p ps pool listed stopped h in
    let order : InOrder pool (some (jobs, left)) = rw d at (drain-InOrder fuel worker pool v) in
    let none_left : listed_count (p ∷ ps) left.job_queues ≡ 0 =
      unfold job_count in (rw listed at z) in
    (
      jobs,
      left,
      d,
      λ q c.
          sym (append-nil (jobs_at q jobs))
          ∙ ap (◌++◌ (jobs_at q jobs))
              (sym (none_waiting q (p ∷ ps) left none_left (rw listed at c)))
          ∙ order q,
    )
