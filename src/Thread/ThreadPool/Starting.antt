-- ===== src/Thread/ThreadPool/Starting.antt =====
-- Starting a pool: what a start that succeeds gives, and that it cannot be repeated.
use cpp_toolkit.Prelude.{
  ℕ, Bool-cases, ◌≡◌, ◌≢◌, refl, arith, Bool, true, false, Option, none, some, List, [], ◌∷◌,
  is_empty, inl, inr,
}
use cpp_toolkit.Thread.ThreadWorker
use cpp_toolkit.Thread.ThreadWorker.{ThreadWorker, Returned, result, throws}
use cpp_toolkit.Thread.ThreadPool.{ThreadPool, start, start_loop, end_start}

-- A property of every worker that is not null.
abbrev pub Each : (ThreadWorker → Type 0) → List (Option ThreadWorker) → Type 0
Each P [] = Unit {0}
Each P (none ∷ workers) = Each P workers
Each P (some worker ∷ workers) = P worker × Each P workers

abbrev pub IsRunning : ThreadWorker → Type 0
IsRunning worker =
    (worker.thread ≡ true) × (worker.thread_stop ≡ false) × (is_empty worker.priorities ≡ false)

-- A worker whose promise has given its future, and that has something to do.
abbrev pub IsSpent : ThreadWorker → Type 0
IsSpent worker = (worker.future_taken ≡ true) × (is_empty worker.priorities ≡ false)

start_one :
    (spawned : Bool) (worker : ThreadWorker) (error : Option (List ℕ))
    → (ThreadWorker.start spawned worker).1 ≡ result (true, error)
    → IsRunning (ThreadWorker.start spawned worker).0
      × IsSpent (ThreadWorker.start spawned worker).0
unfolding ThreadWorker.start ThreadWorker.stop
start_one spawned worker error e = ground arith

-- What a loop of starts leaves: every worker runs, or a failure.
abbrev Started : List (Option ThreadWorker) × Option Returned → Type 0
Started (workers, none) = Each IsRunning workers × Each IsSpent workers
Started (workers, some failure) = failure ≢ result (true, none)

Started-cons :
    (worker : ThreadWorker) (r : List (Option ThreadWorker) × Option Returned)
    → IsRunning worker
    → IsSpent worker
    → Started r
    → Started (some worker ∷ r.0, r.1)
Started-cons worker (workers, none) running spent (hr, hs) = ((running, hr), (spent, hs))
Started-cons worker (workers, some failure) running spent h = h

Started-null :
    (r : List (Option ThreadWorker) × Option Returned) → Started r → Started (none ∷ r.0, r.1)
Started-null (workers, none) h = h
Started-null (workers, some failure) h = h

start_loop-Started :
    (spawns : ThreadWorker → Bool) (workers : List (Option ThreadWorker))
    → Started (start_loop spawns workers)
unfolding start_loop
start_loop-Started spawns [] = (tt, tt)
start_loop-Started spawns (none ∷ workers) =
    Started-null (start_loop spawns workers) (start_loop-Started spawns workers)
start_loop-Started spawns (some worker ∷ workers) =
    go (ThreadWorker.start (spawns worker) worker).1 refl (start_loop-Started spawns workers)
  where
    go :
        (r : Returned)
        → (ThreadWorker.start (spawns worker) worker).1 ≡ r
        → Started (start_loop spawns workers)
        → Started (start_loop spawns (some worker ∷ workers))
    go throws q later = rw (q, start_loop) (λ x. cc)
    go (result (true, error)) q later =
        let (running, spent) = start_one (spawns worker) worker error q in
        rw (q, start_loop)
          (Started-cons (ThreadWorker.start (spawns worker) worker).0 (start_loop spawns workers)
            running spent later)
    go (result (false, error)) q later = rw (q, start_loop) (λ x. cc)

abbrev pub IsStarted : ThreadPool → ThreadPool → Type 0
IsStarted pool started =
    (started.working ≡ true)
    × Each IsRunning started.thread_workers
    × Each IsSpent started.thread_workers
    × (started.job_pool ≡ pool.job_pool)

end_start-IsStarted :
    (pool : ThreadPool) (r : List (Option ThreadWorker) × Option Returned)
    → Started r
    → (end_start pool r).1 ≡ result (true, none)
    → IsStarted pool (end_start pool r).0
unfolding end_start
end_start-IsStarted pool (workers, none) (hr, hs) e = (refl, hr, hs, refl)
end_start-IsStarted pool (workers, some failure) h e = absurd (h e)

pub start-IsStarted :
    (spawns : ThreadWorker → Bool) (pool : ThreadPool)
    → (start spawns pool).1 ≡ result (true, none)
    → IsStarted pool (start spawns pool).0
unfolding start
start-IsStarted spawns pool e = elim (Bool-cases pool.working) [
  | inl w ↦ absurd (ground arith)
  | inr w ↦
      let step : start spawns pool ≡ end_start pool (start_loop spawns pool.thread_workers) =
        ground arith in
      rw step (
        end_start-IsStarted pool (start_loop spawns pool.thread_workers)
          (start_loop-Started spawns pool.thread_workers) (rw step at e))
]

-- A start that succeeds has every worker run, none of them told to stop.
pub start-IsRunning :
    (spawns : ThreadWorker → Bool) (pool : ThreadPool)
    → (start spawns pool).1 ≡ result (true, none)
    → ((start spawns pool).0.working ≡ true) × Each IsRunning (start spawns pool).0.thread_workers
start-IsRunning spawns pool e =
    let (working, running, spent, same) = start-IsStarted spawns pool e in (working, running)

-- There is a worker.
abbrev pub HasWorker : List (Option ThreadWorker) → Type 0
HasWorker [] = ⊥
HasWorker (none ∷ workers) = HasWorker workers
HasWorker (some worker ∷ workers) = Unit {0}

spent_throws :
    (spawned : Bool) (worker : ThreadWorker)
    → IsSpent worker
    → (ThreadWorker.start spawned worker).1 ≡ throws
unfolding ThreadWorker.start ThreadWorker.stop
spent_throws spawned worker spent = ground arith

start_loop_throws :
    (spawns : ThreadWorker → Bool) (workers : List (Option ThreadWorker))
    → HasWorker workers
    → Each IsSpent workers
    → (start_loop spawns workers).1 ≡ some throws
unfolding start_loop
start_loop_throws spawns [] has spent = absurd has
start_loop_throws spawns (none ∷ workers) has spent = start_loop_throws spawns workers has spent
start_loop_throws spawns (some worker ∷ workers) has spent =
    rw (spent_throws (spawns worker) worker spent.0, start_loop)

-- A pool whose workers have all run before cannot be started: the first worker's promise has given
-- its future away, and start throws, whatever threads the system makes.
pub start_throws :
    (spawns : ThreadWorker → Bool) (pool : ThreadPool)
    → pool.working ≡ false
    → HasWorker pool.thread_workers
    → Each IsSpent pool.thread_workers
    → ((start spawns pool).1 ≡ throws) × ((start spawns pool).0.working ≡ false)
unfolding start end_start
start_throws spawns pool idle has spent =
    ground (arith, start_loop_throws spawns pool.thread_workers has spent)
