-- ===== src/Thread/ThreadWorker/Rounds.antt =====
-- What the rounds of a worker's loop do, one by one and together.
use cpp_toolkit.Prelude.{
  ℕ, zero, suc, ◌+◌, ◌≤◌, ◌<◌, ◌≡◌, ◌≢◌, ◌⊎◌, inl, inr, refl, ap, ◌∙◌, arith, Bool, true, false,
  Option, none, some, List, [], ◌∷◌, length, Option-cases,
}
use native.Mathlib.Decide.{dec_le}
use cpp_toolkit.Thread.JobPriorities.{JobPriorities}
use cpp_toolkit.Thread.Job.{Job}
use cpp_toolkit.Thread.JobPool.{JobPool, pop, job_count}
use cpp_toolkit.Thread.JobPool.Counts.{size, size-pop, pop-job_count}
use cpp_toolkit.Thread.ThreadWorker.{ThreadWorker, Round, waits, ends, goes_on, runs, round, drain}

-- A job that a round runs is the one that pop gave at the worker's priorities; and a worker that is
-- paused runs jobs only when it is told to stop.
pub round_runs :
    (worker : ThreadWorker) (pool_waited pool_tested : Option JobPool) (pool left : JobPool)
    (stopping : Bool) (job : Job)
    → round worker pool_waited pool_tested (some pool) stopping ≡ runs job left
    → (pop worker.priorities pool ≡ (some job, left))
      × ((worker.thread_stop ≡ true) ⊎ (worker.pause ≡ false))
unfolding round
round_runs worker pool_waited pool_tested pool left stopping job e = ground arith

-- A worker that is not told to stop never leaves its loop while the pool is there.
pub round_stays :
    (worker : ThreadWorker) (pool_waited pool_tested : Option JobPool) (pool : JobPool)
    → worker.thread_stop ≡ false
    → round worker pool_waited pool_tested (some pool) false ≢ ends
unfolding round
round_stays worker pool_waited pool_tested pool going e = ground arith

-- With one view of the pool: a worker that is told to stop runs a job if one waits for it, and
-- otherwise leaves its loop.
module _ (worker : ThreadWorker) (pool : JobPool) (stopped : worker.thread_stop ≡ true) where
  abbrev stopping_round : Round
  stopping_round = round worker (some pool) (some pool) (some pool) worker.thread_stop

  stopping_round-some :
      (job : Job) (left : JobPool)
      → pop worker.priorities pool ≡ (some job, left)
      → 0 < job_count worker.priorities pool
      → stopping_round ≡ runs job left
  unfolding round
  stopping_round-some job left e pos = ground arith

  stopping_round_none : job_count worker.priorities pool ≡ 0 → stopping_round ≡ ends
  unfolding round
  stopping_round_none e = ground arith

-- Where a job waits, a pop gives one.
pop_found :
    (worker : ThreadWorker) (p : JobPriorities) (ps : List JobPriorities) (pool : JobPool)
    → worker.priorities ≡ p ∷ ps
    → 0 < job_count worker.priorities pool
    → (job : Job) × (left : JobPool) × (pop worker.priorities pool ≡ (some job, left))
      × (size left + 1 ≡ size pool)
pop_found worker p ps pool listed pos =
    let found : (pop worker.priorities pool).0 ≢ none =
      rw listed ((pop-job_count p ps pool).1 (rw listed at pos)) in
    elim (Option-cases (pop worker.priorities pool).0) [
      | inl e ↦ absurd (found e)
      | inr (job, e) ↦ (
        job,
        (pop worker.priorities pool).1,
        ap (λ o. (o, (pop worker.priorities pool).1)) e,
        rw e at (size-pop worker.priorities pool),
      )
    ]

abbrev RunsAll : ℕ → ThreadWorker → JobPool → Type 0
RunsAll fuel worker pool =
    (jobs : List Job) × (left : JobPool) × (drain fuel worker pool ≡ some (jobs, left))
    × (job_count worker.priorities left ≡ 0)
    × (length jobs + size left ≡ size pool)

-- One more round in front.
drain_step :
    (fuel : ℕ) (worker : ThreadWorker) (pool left : JobPool) (job : Job)
    → round worker (some pool) (some pool) (some pool) worker.thread_stop ≡ runs job left
    → size left + 1 ≡ size pool
    → RunsAll fuel worker left
    → RunsAll (suc fuel) worker pool
unfolding drain
drain_step fuel worker pool left job e smaller (jobs, last, d, done, counted) =
    (job ∷ jobs, last, rw (e, d, drain), done, omega arith)

-- A worker with priorities that is told to stop, and has the pool to itself, its jobs pushing none while
-- they run, leaves its loop within any number of rounds above the number of jobs that wait: it has then run
-- as many jobs as have left the pool, and no job of its priorities waits any more.
pub drain_total :
    (fuel : ℕ) (worker : ThreadWorker) (p : JobPriorities) (ps : List JobPriorities)
    (pool : JobPool)
    → worker.priorities ≡ p ∷ ps
    → worker.thread_stop ≡ true
    → size pool < fuel
    → (jobs : List Job) × (left : JobPool) × (drain fuel worker pool ≡ some (jobs, left))
      × (job_count worker.priorities left ≡ 0)
      × (length jobs + size left ≡ size pool)
unfolding drain
drain_total zero worker p ps pool listed stopped h = absurd (omega arith)
drain_total (suc fuel) worker p ps pool listed stopped h =
    elim (dec_le (job_count worker.priorities pool) 0) [
      | yes z ↦ (
        [],
        pool,
        rw (stopping_round_none worker pool stopped (omega arith), drain),
        omega arith,
        omega arith,
      )
      | no n ↦
          let (job, left, e, smaller) = pop_found worker p ps pool listed (omega arith) in
          drain_step fuel worker pool left job
            (stopping_round-some worker pool stopped job left e (omega arith)) smaller
            (drain_total fuel worker p ps left listed stopped (omega arith))
    ]

-- What any loop of rounds leaves: no more jobs than before, and the lock of the pool as it was.
abbrev pub Shrinks : JobPool → Option (List Job × JobPool) → Type 0
Shrinks pool none = Unit {0}
Shrinks pool (some (jobs, left)) =
    (size left ≤ size pool) × (left.lock_condition ≡ pool.lock_condition)

pop_keeps :
    (ps : List JobPriorities) (pool : JobPool)
    → (size (pop ps pool).1 ≤ size pool) × ((pop ps pool).1.lock_condition ≡ pool.lock_condition)
pop_keeps ps pool = (omega (arith, size-pop ps pool), lock_kept ps pool)
  where
    lock_kept :
        (ps : List JobPriorities) (pool : JobPool)
        → (pop ps pool).1.lock_condition ≡ pool.lock_condition
    lock_kept [] pool = unfold pop in refl
    lock_kept (p ∷ ps) pool = unfold pop in refl

Shrinks-cons :
    (pool left : JobPool) (job : Job) (r : Option (List Job × JobPool))
    → size left ≤ size pool
    → left.lock_condition ≡ pool.lock_condition
    → Shrinks left r
    → Shrinks pool (elim r [ none ↦ none | some (jobs, last) ↦ some (job ∷ jobs, last) ])
Shrinks-cons pool left job none h e s = tt
Shrinks-cons pool left job (some (jobs, last)) h e s = (omega arith, s.1 ∙ e)

pub drain-Shrinks :
    (fuel : ℕ) (worker : ThreadWorker) (pool : JobPool) → Shrinks pool (drain fuel worker pool)
unfolding drain
drain-Shrinks zero worker pool = tt
drain-Shrinks (suc fuel) worker pool =
    go (round worker (some pool) (some pool) (some pool) worker.thread_stop) refl
      (drain-Shrinks fuel worker)
  where
    go :
        (r : Round)
        → round worker (some pool) (some pool) (some pool) worker.thread_stop ≡ r
        → ((left : JobPool) → Shrinks left (drain fuel worker left))
        → Shrinks pool (drain (suc fuel) worker pool)
    go waits e later = rw (e, drain) tt
    go ends e later = rw (e, drain) (omega arith, refl)
    go goes_on e later = rw (e, drain) (later pool)
    go (runs job left) e later =
        let popped =
          (round_runs worker (some pool) (some pool) pool left worker.thread_stop job e).0 in
        let kept = (rw popped at (pop_keeps worker.priorities pool)) in
        rw (e, drain)
          (Shrinks-cons pool left job (drain fuel worker left) kept.0 kept.1 (later left))
