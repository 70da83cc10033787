-- ===== src/Thread/JobPool/Refinement.antt =====
-- What a pool promises, as a queue for each priority, and that the map of queues keeps the promise.
use mathlib.Core.Path.{ap₂}
use cpp_toolkit.Prelude.{
  ◌≡◌, refl, sym, ap, ◌∙◌, Bool, true, false, Option, none, some, List, [], ◌∷◌, ◌++◌, inl, inr,
  Bool-cases, if◌then◌else◌, ◌==◌, codes,
}
use cpp_toolkit.Prelude.Map.{find}
use cpp_toolkit.Thread.JobPriorities.{JobPriorities, priority_eq}
use cpp_toolkit.Thread.Job.{Job, Outcome}
use cpp_toolkit.Thread.JobPool.{JobPool, enqueue, push, pop, clear, clear_priority, lock}
use cpp_toolkit.Thread.JobPool.Queues.{
  queue, waiting, waiting-enqueue, queue-clear_priority, Takes, pop-Takes, List-cases,
}

pub record Spec : Type 0 where
  pub locked : Bool
  pub notifies : Bool
  pub waiting : JobPriorities → List Job

-- What a client asks for, and what it is told.
pub data Op : Type 0 where
  put : Option Job → Op
  get : List JobPriorities → Op
  drop_all : Op
  drop_at : JobPriorities → Op
  shut : Bool → Op

pub data Reply : Type 0 where
  told : Outcome → Option JobPriorities → Reply
  given : Option Job → Reply
  quiet : Reply

abbrev pub at_priority : JobPriorities → List Job → Spec → Spec
at_priority p jobs s = record s { waiting = λ k. if p == k then jobs else s.waiting k }

unfoldable pub spec_pop : List JobPriorities → Spec → Option Job × Spec
spec_pop [] s = (none, s)
spec_pop (p ∷ ps) s = elim (s.waiting p) [
  | [] ↦ spec_pop ps s
  | job ∷ jobs ↦ (some job, at_priority p jobs s)
]

unfoldable pub spec_step : Op → Spec → Reply × Spec
unfolding spec_pop
spec_step (put none) s = (told (false, some (codes "cannot push empty job")) none, s)
spec_step (put (some job)) s =
    if s.locked
    then (told (false, some (codes "the system is locked and new tasks cannot be created")) none, s)
    else (
      told (true, none) (if s.notifies then some job.priority else none),
      record s {
        waiting = λ k.
            if job.priority == k
            then s.waiting k ++ (record job { job_pool = true } ∷ [])
            else s.waiting k;
      },
    )
spec_step (get ps) s = let (job, s') = spec_pop ps s in (given job, s')
spec_step drop_all s = (quiet, record s { waiting = λ p. [] })
spec_step (drop_at p) s = (quiet, at_priority p [] s)
spec_step (shut b) s = (quiet, record s { locked = b })

unfoldable pub step : Op → JobPool → Reply × JobPool
step (put job) pool =
    let (pool', outcome, notified) = push job pool in (told outcome notified, pool')
step (get ps) pool = let (job, pool') = pop ps pool in (given job, pool')
step drop_all pool = (quiet, (clear [] pool).1)
step (drop_at p) pool = (quiet, clear_priority p pool)
step (shut b) pool = (quiet, lock b pool)

unfoldable pub spec_run : Spec → List Op → List Reply
unfolding spec_step
spec_run s [] = []
spec_run s (op ∷ ops) = let (reply, s') = spec_step op s in reply ∷ spec_run s' ops

unfoldable pub run : JobPool → List Op → List Reply
unfolding step
run pool [] = []
run pool (op ∷ ops) = let (reply, pool') = step op pool in reply ∷ run pool' ops

abbrev pub view : JobPool → Spec
view pool = record {
  locked = pool.lock_condition;
  notifies = pool.notify_callback;
  waiting = λ p. queue p pool;
}

same_queues :
    (pool : JobPool) (w w' : JobPriorities → List Job)
    → ((p : JobPriorities) → w p ≡ w' p)
    → record (view pool) { waiting = w } ≡ record (view pool) { waiting = w' }
same_queues pool w w' h = λ i. record (view pool) { waiting = λ p. h p i }

pop_view :
    (ps : List JobPriorities) (pool : JobPool) (taken : Option Job)
    (left : List (JobPriorities × List Job))
    → Takes ps pool (taken, record pool { job_queues = left })
    → (taken, view (record pool { job_queues = left })) ≡ spec_pop ps (view pool)
unfolding spec_pop
pop_view [] pool taken left t = ap₂ (λ x y. (x, view y)) t.0 t.1
pop_view (p ∷ ps) pool taken left t = elim (List-cases (queue p pool)) [
  | inl e ↦ rw (spec_pop, e) (pop_view ps pool taken left (rw (e, Takes) at t))
  | inr (job, jobs, e) ↦
      let h : (taken ≡ some job)
          × ((k : JobPriorities)
              → queue k (record pool { job_queues = left })
                ≡ (if p == k then jobs else queue k pool)) =
        (rw (e, Takes) at t) in
      rw (spec_pop, e)
        (ap₂ (λ x y. (x, y)) h.0
          (same_queues pool (λ k. queue k (record pool { job_queues = left }))
            (λ k. if p == k then jobs else queue k pool) h.1))
]

get_view :
    (ps : List JobPriorities) (pool : JobPool)
    → ((pop ps pool).0, view (pop ps pool).1) ≡ spec_pop ps (view pool)
unfolding pop
get_view [] pool = pop_view [] pool none pool.job_queues (pop-Takes [] pool)
get_view (p ∷ ps) pool =
    pop_view (p ∷ ps) pool (pop (p ∷ ps) pool).0 (pop (p ∷ ps) pool).1.job_queues
      (pop-Takes (p ∷ ps) pool)

spec_put :
    (job : Job) (s : Spec)
    → s.locked ≡ false
    → spec_step (put (some job)) s ≡ (
      told (true, none) (if s.notifies then some job.priority else none),
      record s {
        waiting = λ k.
            if job.priority == k
            then s.waiting k ++ (record job { job_pool = true } ∷ [])
            else s.waiting k;
      },
    )
unfolding spec_step
spec_put job s e = simp e

step-put :
    (job : Job) (pool : JobPool)
    → pool.lock_condition ≡ false
    → step (put (some job)) pool ≡ (
      told (true, none) (if pool.notify_callback then some job.priority else none),
      record pool { job_queues = enqueue (record job { job_pool = true }) pool.job_queues },
    )
unfolding step push
step-put job pool e = simp e

push_refines :
    (job : Job) (pool : JobPool)
    → ((step (put (some job)) pool).0, view (step (put (some job)) pool).1)
      ≡ spec_step (put (some job)) (view pool)
unfolding queue
push_refines job pool = elim (Bool-cases pool.lock_condition) [
  | inl locked ↦ unfold spec_step step push in rw (spec_step, step, push, locked) refl
  | inr open_pool ↦
      ap (λ x. (x.0, view x.1)) (step-put job pool open_pool)
      ∙ ap (λ x. (told (true, none) (if pool.notify_callback then some job.priority else none), x))
          (same_queues pool
            (λ k. waiting k (enqueue (record job { job_pool = true }) pool.job_queues))
            (λ k.
              if job.priority == k
              then waiting k pool.job_queues ++ (record job { job_pool = true } ∷ [])
              else waiting k pool.job_queues)
            (waiting-enqueue (record job { job_pool = true }) pool.job_queues))
      ∙ sym (spec_put job (view pool) open_pool)
]

step_refines :
    (op : Op) (pool : JobPool)
    → ((step op pool).0, view (step op pool).1) ≡ spec_step op (view pool)
unfolding spec_step step
step_refines (put none) pool = unfold push in refl
step_refines (put (some job)) pool = push_refines job pool
step_refines (get ps) pool = unfold pop in ap (λ x. (given x.0, x.1)) (get_view ps pool)
step_refines drop_all pool = unfold clear queue find in refl
step_refines (drop_at p) pool =
    unfold clear_priority in
    ap (λ x. (quiet, x))
      (same_queues pool (λ k. queue k (clear_priority p pool))
        (λ k. if p == k then [] else queue k pool) (λ k. queue-clear_priority p k pool))
step_refines (shut b) pool = unfold lock queue in refl

-- No sequence of pushes, pops, clears and locks tells a pool from a queue for each priority: every
-- outcome, every notification and every job that is given is the one that the queues would give.
pub run_refines : (ops : List Op) (pool : JobPool) → run pool ops ≡ spec_run (view pool) ops
unfolding run spec_run
run_refines [] pool = refl
run_refines (op ∷ ops) pool =
    ap₂ ◌∷◌ (ap (λ x. x.0) (step_refines op pool))
      (run_refines ops (step op pool).1 ∙ ap (λ x. spec_run x.1 ops) (step_refines op pool))
