-- ===== src/Thread/JobPool/Counts.antt =====
-- Counts: what job_count says of the queues, and no job is lost or made up.
use cpp_toolkit.Prelude.{
  ℕ, ◌+◌, ◌<◌, ◌≡◌, ◌≢◌, ◌↔◌, refl, arith, true, false, Option, none, some, List, [], ◌∷◌, ◌++◌,
  inl, inr, length, length-append, ap, ◌∙◌,
}
use cpp_toolkit.Prelude.Map.{find, assign}
use native.Mathlib.Decide.{dec_le}
use cpp_toolkit.Thread.JobPriorities.{JobPriorities, priority_eq}
use cpp_toolkit.Thread.Job.{Job}
use cpp_toolkit.Thread.JobPool.{
  JobPool, push, pop, pop_queues, enqueue, job_count, total_count, listed_count,
}
use cpp_toolkit.Thread.JobPool.Queues.{waiting, pop_queues_skip, pop_queues_hit, List-cases}

abbrev Queues : Type 0
Queues = List (JobPriorities × List Job)

total_count-assign :
    (p : JobPriorities) (jobs : List Job) (queues : Queues)
    → total_count (assign p jobs queues) + length (waiting p queues)
      ≡ total_count queues + length jobs
unfolding total_count assign find
total_count-assign p jobs [] = omega arith
total_count-assign p jobs ((k, w) ∷ queues) = ground (arith, total_count-assign p jobs queues)

total_count-enqueue :
    (job : Job) (queues : Queues) → total_count (enqueue job queues) ≡ total_count queues + 1
unfolding enqueue
total_count-enqueue job queues = ground (
  arith,
  total_count-assign job.priority (waiting job.priority queues ++ (job ∷ [])) queues,
  total_count-assign job.priority (job ∷ []) queues,
  length-append (waiting job.priority queues) (job ∷ []),
)

-- A pop of the queues takes one job from the whole, if it takes one.
abbrev pub taken_count : Option Job → ℕ
taken_count none = 0
taken_count (some job) = 1

total_count-pop_queues :
    (ps : List JobPriorities) (queues : Queues)
    → total_count (pop_queues ps queues).1 + taken_count (pop_queues ps queues).0
      ≡ total_count queues
total_count-pop_queues [] queues = unfold pop_queues in omega arith
total_count-pop_queues (p ∷ ps) queues = elim (List-cases (waiting p queues)) [
  | inl e ↦ rw (pop_queues_skip p ps queues e) (total_count-pop_queues ps queues)
  | inr (job, jobs, e) ↦
      rw (pop_queues_hit p ps queues e)
        (omega (arith, total_count-assign p jobs queues, ap length e))
]

-- The jobs that wait in a pool.
unfoldable pub size : JobPool → ℕ
size pool = total_count pool.job_queues

-- A push to a locked pool is refused: the pool stays as it is, and nobody is notified.
pub push-locked :
    (job : Option Job) (pool : JobPool)
    → pool.lock_condition ≡ true
    → ((push job pool).0 ≡ pool) × ((push job pool).1.0 ≡ false) × ((push job pool).2 ≡ none)
unfolding push
push-locked none pool locked = (refl, refl, refl)
push-locked (some job) pool locked = ground arith

-- A push of a job to an unlocked pool adds one job.
pub size-push :
    (job : Job) (pool : JobPool)
    → pool.lock_condition ≡ false
    → size (push (some job) pool).0 ≡ size pool + 1
unfolding push size
size-push job pool unlocked =
    ground (arith, total_count-enqueue (record job { job_pool = true }) pool.job_queues)

-- A pop removes exactly the job that it returns.
pub size-pop :
    (ps : List JobPriorities) (pool : JobPool)
    → size (pop ps pool).1 + taken_count (pop ps pool).0 ≡ size pool
unfolding pop size
size-pop [] pool = omega arith
size-pop (p ∷ ps) pool = total_count-pop_queues (p ∷ ps) pool.job_queues

-- What `listed_count` counts: the queues that are listed.
listed_count-zero :
    (ps : List JobPriorities) (queues : Queues)
    → listed_count ps queues ≡ 0
    → pop_queues ps queues ≡ (none, queues)
unfolding listed_count
listed_count-zero [] queues h = unfold pop_queues in refl
listed_count-zero (p ∷ ps) queues h = elim (List-cases (waiting p queues)) [
  | inl e ↦ pop_queues_skip p ps queues e ∙ listed_count-zero ps queues (ground arith)
  | inr (job, jobs, e) ↦ absurd (ground arith)
]

listed_count-pos :
    (ps : List JobPriorities) (queues : Queues)
    → 0 < listed_count ps queues
    → (pop_queues ps queues).0 ≢ none
unfolding listed_count
listed_count-pos [] queues h = absurd (omega arith)
listed_count-pos (p ∷ ps) queues h = elim (List-cases (waiting p queues)) [
  | inl e ↦ rw (pop_queues_skip p ps queues e) (listed_count-pos ps queues (ground arith))
  | inr (job, jobs, e) ↦ rw (pop_queues_hit p ps queues e) (λ q. cc)
]

-- At a non-empty list of priorities a pop finds a job exactly if job_count is not 0.
pub pop-job_count :
    (p : JobPriorities) (ps : List JobPriorities) (pool : JobPool)
    → ((pop (p ∷ ps) pool).0 ≢ none) ↔ (0 < job_count (p ∷ ps) pool)
unfolding pop job_count
pop-job_count p ps pool = (
  λ found. elim (dec_le (listed_count (p ∷ ps) pool.job_queues) 0) [
    | yes z ↦
        absurd (found (ap (λ r. r.0) (listed_count-zero (p ∷ ps) pool.job_queues (omega arith))))
    | no n ↦ omega arith
  ],
  listed_count-pos (p ∷ ps) pool.job_queues,
)

-- Without priorities a pop finds nothing, though job_count counts every job.
pub pop_nil : (pool : JobPool) → (pop [] pool ≡ (none, pool)) × (job_count [] pool ≡ size pool)
unfolding pop job_count size
pop_nil pool = (refl, refl)
