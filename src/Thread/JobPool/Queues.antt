-- ===== src/Thread/JobPool/Queues.antt =====
-- The pool as one queue for each priority: what `push`, `pop` and the two `clear`s do to these queues.
use cpp_toolkit.Prelude.{
  ◌≡◌, refl, arith, true, false, Option, none, some, List, [], ◌∷◌, ◌++◌, ◌⊎◌, inl, inr,
  if◌then◌else◌, ◌==◌, ap,
}
use cpp_toolkit.Prelude.Map.{find, assign, find-assign, find-erase}
use cpp_toolkit.Thread.JobPriorities.{JobPriorities, priority_eq}
use cpp_toolkit.Thread.Job.{Job}
use cpp_toolkit.Thread.JobPool.{JobPool, push, pop, pop_queues, enqueue, clear_priority}

abbrev pub or_empty : Option (List Job) → List Job
or_empty none = []
or_empty (some jobs) = jobs

abbrev pub waiting : JobPriorities → List (JobPriorities × List Job) → List Job
waiting priority queues = or_empty (find priority queues)

-- The jobs that wait at a priority, oldest first.
unfoldable pub queue : JobPriorities → JobPool → List Job
queue priority pool = waiting priority pool.job_queues

pub waiting-enqueue :
    (job : Job) (queues : List (JobPriorities × List Job)) (p : JobPriorities)
    → waiting p (enqueue job queues)
      ≡ (if job.priority == p then waiting p queues ++ (job ∷ []) else waiting p queues)
unfolding enqueue
waiting-enqueue job queues p = ground (
  arith,
  priority_eq.beq_iff job.priority p,
  find-assign job.priority p (waiting job.priority queues ++ (job ∷ [])) queues,
  find-assign job.priority p (job ∷ []) queues,
)

-- An unlocked pool takes a job to the end of the queue of its priority, with its pool set; the other
-- queues stay, and the callback is called with the priority if it is set.
pub queue-push :
    (job : Job) (pool : JobPool) (p : JobPriorities)
    → pool.lock_condition ≡ false
    → let (pool', outcome, notified) = push (some job) pool in
      (outcome ≡ (true, none))
      × (notified ≡ (if pool.notify_callback then some job.priority else none))
      × (queue p pool' ≡ (
          if job.priority == p
          then queue p pool ++ (record job { job_pool = true } ∷ [])
          else queue p pool))
unfolding push queue
queue-push job pool p unlocked =
    ground (arith, waiting-enqueue (record job { job_pool = true }) pool.job_queues p)

-- What a pop at these priorities has to do: it takes the oldest job of the first queue that has one.
abbrev pub Takes : List JobPriorities → JobPool → Option Job × JobPool → Type 0
Takes [] pool (taken, left) = (taken ≡ none) × (left ≡ pool)
Takes (p ∷ ps) pool (taken, left) = elim (queue p pool) [
  | [] ↦ Takes ps pool (taken, left)
  | job ∷ jobs ↦
      (taken ≡ some job)
      × ((k : JobPriorities) → queue k left ≡ (if p == k then jobs else queue k pool))
]

-- The same for the queues alone.
abbrev TakesFrom :
    List JobPriorities
    → List (JobPriorities × List Job)
    → Option Job × List (JobPriorities × List Job)
    → Type 0
TakesFrom [] queues (taken, left) = (taken ≡ none) × (left ≡ queues)
TakesFrom (p ∷ ps) queues (taken, left) = elim (waiting p queues) [
  | [] ↦ TakesFrom ps queues (taken, left)
  | job ∷ jobs ↦
      (taken ≡ some job)
      × ((k : JobPriorities) → waiting k left ≡ (if p == k then jobs else waiting k queues))
]

waiting-assign :
    (p k : JobPriorities) (jobs : List Job) (queues : List (JobPriorities × List Job))
    → waiting k (assign p jobs queues) ≡ (if p == k then jobs else waiting k queues)
waiting-assign p k jobs queues = ground (arith, find-assign p k jobs queues)

-- The two ways that a round of the loop of `pop` goes.
pub pop_queues_skip :
    (p : JobPriorities) (ps : List JobPriorities) (queues : List (JobPriorities × List Job))
    → waiting p queues ≡ []
    → pop_queues (p ∷ ps) queues ≡ pop_queues ps queues
unfolding pop_queues
pop_queues_skip p ps queues e = ground arith

pub pop_queues_hit :
    (p : JobPriorities) (ps : List JobPriorities) (queues : List (JobPriorities × List Job))
    {job : Job} {jobs : List Job}
    → waiting p queues ≡ job ∷ jobs
    → pop_queues (p ∷ ps) queues ≡ (some job, assign p jobs queues)
unfolding pop_queues
pop_queues_hit p ps queues e = ground arith

pub List-cases {ℓ} :
    {A : Type ℓ} (xs : List A) → (xs ≡ []) ⊎ ((y : A) × (ys : List A) × (xs ≡ y ∷ ys))
List-cases [] = inl refl
List-cases (x ∷ xs) = inr (x, xs, refl)

pop_queues-TakesFrom :
    (ps : List JobPriorities) (queues : List (JobPriorities × List Job))
    → TakesFrom ps queues (pop_queues ps queues)
pop_queues-TakesFrom [] queues = unfold pop_queues in (refl, refl)
pop_queues-TakesFrom (p ∷ ps) queues = elim (List-cases (waiting p queues)) [
  | inl e ↦ rw (pop_queues_skip p ps queues e) (rw (e, TakesFrom) (pop_queues-TakesFrom ps queues))
  | inr (job, jobs, e) ↦
      rw (pop_queues_hit p ps queues e)
        (rw (e, TakesFrom) (refl, λ k. waiting-assign p k jobs queues))
]

TakesFrom→Takes :
    (ps : List JobPriorities) (pool : JobPool) (taken : Option Job)
    (left : List (JobPriorities × List Job))
    → TakesFrom ps pool.job_queues (taken, left)
    → Takes ps pool (taken, record pool { job_queues = left })
unfolding queue
TakesFrom→Takes [] pool taken left t = (t.0, ap (λ q. record pool { job_queues = q }) t.1)
TakesFrom→Takes (p ∷ ps) pool taken left t = elim (List-cases (waiting p pool.job_queues)) [
  | inl e ↦ rw (e, Takes) (TakesFrom→Takes ps pool taken left (rw (e, TakesFrom) at t))
  | inr (job, jobs, e) ↦ rw (e, Takes) (rw (e, TakesFrom) at t)
]

-- A pop takes the oldest job of the first listed priority that has one, and leaves every other queue
-- as it is; where no listed priority has a job, it takes none and leaves the pool as it is.
pub pop-Takes : (ps : List JobPriorities) (pool : JobPool) → Takes ps pool (pop ps pool)
unfolding pop
pop-Takes [] pool = (refl, refl)
pop-Takes (p ∷ ps) pool =
    let (job, queues) = pop_queues (p ∷ ps) pool.job_queues in
    TakesFrom→Takes (p ∷ ps) pool job queues (pop_queues-TakesFrom (p ∷ ps) pool.job_queues)

-- clear(priority) empties the queue of that priority, and no other.
pub queue-clear_priority :
    (priority p : JobPriorities) (pool : JobPool)
    → queue p (clear_priority priority pool) ≡ (if priority == p then [] else queue p pool)
unfolding queue clear_priority
queue-clear_priority priority p pool = ground (arith, find-erase priority p pool.job_queues)
