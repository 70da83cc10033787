-- ===== src/Thread/JobPool/Sorted.antt =====
-- Every job waits in the queue of its own priority.
use cpp_toolkit.Prelude.{
  ℕ, ◌≡◌, sym, arith, true, Option, some, List, [], ◌∷◌, ◌++◌, inl, inr, if◌then◌else◌, ◌==◌, All,
  Bool-cases, eq_of_test,
}
use mathlib.Core.Path.{subst}
use cpp_toolkit.Prelude.Map.{find}
use cpp_toolkit.Thread.JobPriorities.{JobPriorities, priority_eq, contains}
use cpp_toolkit.Thread.Job.{Job}
use cpp_toolkit.Thread.JobPool.{JobPool, make_pool, push, pop, clear_priority}
use cpp_toolkit.Thread.JobPool.Queues.{
  queue, queue-push, queue-clear_priority, Takes, pop-Takes, List-cases,
}
use cpp_toolkit.Thread.JobPool.Counts.{push-locked}

abbrev pub AllAt : JobPriorities → List Job → Type 0
AllAt p = All (λ (job : Job). job.priority ≡ p)

pub record IsSorted (pool : JobPool) : Type 0 where
  pub at_own_priority : (p : JobPriorities) → AllAt p (queue p pool)

pub make_pool-IsSorted : (title : List ℕ) → IsSorted (make_pool title)
unfolding make_pool queue find
make_pool-IsSorted title = record { at_own_priority = λ p. tt }

All-append {ℓ κ} :
    {A : Type ℓ} (P : A → Type κ) (xs ys : List A) → All P xs → All P ys → All P (xs ++ ys)
All-append P [] ys hx hy = hy
All-append P (x ∷ xs) ys (h, hx) hy = (h, All-append P xs ys hx hy)

-- A push keeps every job at its own priority.
pub push-IsSorted : (job : Job) (pool : JobPool) → IsSorted pool → IsSorted (push (some job) pool).0
push-IsSorted job pool v = elim (Bool-cases pool.lock_condition) [
  | inl locked ↦ rw ((push-locked (some job) pool locked).0) v
  | inr unlocked ↦ record { at_own_priority = λ p. rw ((queue-push job pool p unlocked).2) (at p) }
]
  where
    at :
        (p : JobPriorities)
        → AllAt p (
            if job.priority == p
            then queue p pool ++ (record job { job_pool = true } ∷ [])
            else queue p pool)
    at p = elim (Bool-cases (job.priority == p)) [
      | inl same ↦
          rw same (
            All-append _ (queue p pool) _ (v.at_own_priority p)
              (eq_of_test job.priority p same, tt))
      | inr other ↦ rw other (v.at_own_priority p)
    ]

Takes-IsSorted :
    (ps : List JobPriorities) (pool : JobPool) (taken : Option Job) (left : JobPool)
    → Takes ps pool (taken, left)
    → IsSorted pool
    → IsSorted left × ((job : Job) → taken ≡ some job → contains job.priority ps ≡ true)
unfolding contains
Takes-IsSorted [] pool taken left t v = (rw t.1 v, λ job e. cc)
Takes-IsSorted (p ∷ ps) pool taken left t v = elim (List-cases (queue p pool)) [
  | inl e ↦
      let (sorted, served) = Takes-IsSorted ps pool taken left (rw (e, Takes) at t) v in
      (sorted, λ job q. ground (arith, served job q))
  | inr (job, jobs, e) ↦
      let (first, rest) = (rw (e, Takes) at t) in
      let own : AllAt p (job ∷ jobs) = rw e at (v.at_own_priority p) in
      (
        record {
          at_own_priority = λ k. rw (rest k) (elim (Bool-cases (p == k)) [
            | inl same ↦ rw same (subst (λ k. AllAt k jobs) (eq_of_test p k same) own.1)
            | inr other ↦ rw other (v.at_own_priority k)
          ]);
        },
        λ j q.
            let same : j ≡ job = cc in
            let at_p : p ≡ j.priority = rw same (sym own.0) in
            ground (arith, (priority_eq.beq_iff p j.priority).1 at_p),
      )
]

-- A pop keeps every job at its own priority, and the job that it gives has one of the priorities that
-- were asked for.
pub pop-IsSorted :
    (ps : List JobPriorities) (pool : JobPool)
    → IsSorted pool
    → IsSorted (pop ps pool).1
      × ((job : Job) → (pop ps pool).0 ≡ some job → contains job.priority ps ≡ true)
pop-IsSorted ps pool v =
    Takes-IsSorted ps pool (pop ps pool).0 (pop ps pool).1 (pop-Takes ps pool) v

pub clear_priority-IsSorted :
    (priority : JobPriorities) (pool : JobPool)
    → IsSorted pool
    → IsSorted (clear_priority priority pool)
clear_priority-IsSorted priority pool v = record {
  at_own_priority = λ p.
      rw (queue-clear_priority priority p pool) (elim (Bool-cases (priority == p)) [
        | inl same ↦ rw same tt
        | inr other ↦ rw other (v.at_own_priority p)
      ]);
}
