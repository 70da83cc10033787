-- ===== src/Thread/ThreadWorker/Lifecycle.antt =====
-- Starting, stopping and waking a worker.
use cpp_toolkit.Prelude.{◌≡◌, ◌↔◌, refl, arith, Bool, true, false, none, List, [], ◌∷◌, is_empty}
use cpp_toolkit.Thread.JobPriorities.{JobPriorities, contains}
use cpp_toolkit.Thread.ThreadWorker.{ThreadWorker, result, throws, start, stop, notify_one}

-- A start that succeeds leaves a thread that is not told to stop. Once it is stopped, the worker is
-- not to be started again: the promise has given its future, and the next start throws, whatever
-- the threads of the system, and leaves no thread.
pub start_once :
    (spawned : Bool) (worker : ThreadWorker)
    → (start true worker).1 ≡ result (true, none)
    → let started = (start true worker).0 in
      let again = start spawned (stop started).0 in
      (started.thread ≡ true)
      × (started.thread_stop ≡ false)
      × (again.1 ≡ throws)
      × (again.0.thread ≡ false)
unfolding start stop
start_once spawned worker ok = ground arith

empty_serves :
    (target : JobPriorities) (ps : List JobPriorities)
    → is_empty ps ≡ true
    → contains target ps ≡ false
unfolding contains
empty_serves target [] h = refl
empty_serves target (p ∷ ps) h = cc

-- A worker is signalled exactly if its thread runs and it serves the priority.
pub notify_one_iff :
    (target : JobPriorities) (worker : ThreadWorker)
    → (notify_one target worker ≡ true)
      ↔ ((worker.thread ≡ true) × (contains target worker.priorities ≡ true))
unfolding notify_one
notify_one_iff target worker = grind (arith, empty_serves target worker.priorities)
