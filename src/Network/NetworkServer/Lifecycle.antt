-- ===== src/Network/NetworkServer/Lifecycle.antt =====
-- The life of a server: what stop leaves of it, and what becomes of one that is started again after a
-- wait_stop whose seconds ran out.
use cpp_toolkit.Prelude.{
  ◌≡◌, refl, ap, Bool, true, false, Option, none, some, List, [], ◌∷◌, ◌++◌, codes, map,
}
use cpp_toolkit.Thread.JobPriorities.{long_term}
use cpp_toolkit.Thread.Job.{Files, Text, make_void_job}
use cpp_toolkit.Thread.JobPool.{make_pool}
use cpp_toolkit.Thread.ThreadWorker.{ThreadWorker}
use cpp_toolkit.Thread.ThreadPool
use cpp_toolkit.Thread.ThreadPool.{ThreadPool, make_thread_pool, push_workers, push_job}
use cpp_toolkit.Thread.ThreadPool.Jobs.{
  HasJobs, IsSound, some_of, stop_defined, lock-HasJobs, start-HasJobs, push_workers-HasJobs,
  push_job-HasJobs,
}
use cpp_toolkit.Network.NetworkServer.{
  SessionOps, NetworkServer, destroy_thread_pool, destroy_io_context, create_thread_pool,
  create_io_context, server_workers, pool_title, accept, shut, stop_each, drop_sessions, stop,
  wait_stop, start, returns, throws,
}

-- The pool that create_thread_pool makes.
abbrev pub fresh_pool : (ThreadWorker → Bool) → Text → ThreadPool
fresh_pool spawns id =
    (ThreadPool.start spawns
      (push_workers spawns server_workers (make_thread_pool (pool_title id)))).0

fresh_pool-HasJobs : (spawns : ThreadWorker → Bool) (id : Text) → HasJobs (fresh_pool spawns id)
unfolding make_thread_pool make_pool
fresh_pool-HasJobs spawns id =
    start-HasJobs spawns (push_workers spawns server_workers (make_thread_pool (pool_title id))) (
      push_workers-HasJobs spawns server_workers (make_thread_pool (pool_title id)) (
        record (make_pool (codes "JobPool on " ++ pool_title id)) { notify_callback = true },
        refl,
      ))

-- The sessions of a list that are there.
unfoldable pub present {ℓ} : {S : Type ℓ} → List (Option S) → List S
present [] = []
present (none ∷ sessions) = present sessions
present (some session ∷ sessions) = session ∷ present sessions

module _ {ℓ} {S : Type ℓ} where
  abbrev pub released : NetworkServer S → NetworkServer S
  released server = record server { thread_pool = none; acceptor = false; io_context = false }

  destroy_pool-none :
      (files : Files) (server : NetworkServer S) (o : Option ThreadPool)
      → IsSound o
      → (files' : Files) × (destroy_thread_pool files (record server { thread_pool = o })
          ≡ some (files', record server { thread_pool = none }))
  unfolding destroy_thread_pool
  destroy_pool-none files server none sound = (files, refl)
  destroy_pool-none files server (some pool) sound =
      let (r, stopped) =
        some_of (ThreadPool.stop true files pool) (stop_defined true files pool sound) in
      (r.0, rw (destroy_thread_pool, stopped) refl)

  destroy_context :
      (files : Files) (server : NetworkServer S) (o : Option ThreadPool)
      → IsSound o
      → (files' : Files) × (destroy_io_context files (record server { thread_pool = o })
          ≡ some (files', released server))
  unfolding destroy_io_context
  destroy_context files server none sound = destroy_pool-none files (released server) none tt
  destroy_context files server (some pool) sound =
      destroy_pool-none files (released server) (some (ThreadPool.lock true pool))
        (lock-HasJobs pool sound)

  destroy_released :
      (files : Files) (server : NetworkServer S)
      → IsSound server.thread_pool
      → (files' : Files) × (destroy_io_context files server ≡ some (files', released server))
  destroy_released files server = destroy_context files server server.thread_pool

  -- The server once it is started.
  abbrev pub started : (ThreadWorker → Bool) → NetworkServer S → NetworkServer S
  started spawns server = record server {
    thread_pool =
        some
          (push_job (some (make_void_job long_term (codes "main_job_for_server") false))
            (fresh_pool spawns server.server_id)).0;
    acceptor = true;
    io_context = true;
  }

  module _ (ops : SessionOps S) where
    shut_releases :
        (files : Files) (server : NetworkServer S)
        → IsSound server.thread_pool
        → (files' : Files) × (shut ops files server
            ≡ some
                (files', record (released server) { sessions = [] }, stop_each ops server.sessions))
    unfolding drop_sessions
    shut_releases files server sound =
        let (files', gone) = destroy_released files (record server { sessions = [] }) sound in
        (files', rw gone refl)

    -- Where nobody waits for its end, stop of a server that runs says success, has stopped every session,
    -- their callbacks taken away, and leaves no session, thread pool, acceptor nor io_context.
    pub stop_releases :
        (files : Files) (server : NetworkServer S)
        → IsSound server.thread_pool
        → (files' : Files) × (stop ops files (record server { io_context = true; promise = none })
            ≡ some (
              files',
              record (released server) { sessions = []; promise = none },
              stop_each ops server.sessions,
              (true, none),
            ))
    unfolding stop
    stop_releases files server sound =
        let (files', gone) =
          shut_releases files (record server { io_context = true; promise = none }) sound in
        (files', rw gone refl)

    start-started :
        (spawns : ThreadWorker → Bool) (files : Files) (server : NetworkServer S)
        → IsSound server.thread_pool
        → (files' : Files) × (start ops true spawns files (record server { io_context = false })
            ≡ some (files', started spawns server, (true, none)))
    unfolding start stop create_io_context create_thread_pool destroy_thread_pool
    start-started spawns files server sound =
        let (files', gone) = destroy_released files (record server { io_context = false }) sound in
        (files', rw gone refl)

    -- The server once its time-out has passed.
    abbrev pub waited : NetworkServer S → NetworkServer S
    waited server = record (released server) {
      sessions = [];
      promise = some true;
      future_valid = true;
    }

    -- A wait_stop whose seconds run out before another thread stops the server.
    timed_out :
        (files : Files) (server : NetworkServer S)
        → IsSound server.thread_pool
        → (files' : Files) × (wait_stop ops
              (λ s. s)
              files
              (record server { io_context = true; promise = none })
            ≡ some (files', waited server, stop_each ops server.sessions, returns (true, none)))
    unfolding wait_stop
    timed_out files server sound =
        let (files', gone) =
          shut_releases files
            (record server { io_context = true; promise = some true; future_valid = true }) sound in
        (files', rw gone refl)

    -- A server whose wait_stop has run out of its seconds can be started again, but then a stop says
    -- success and leaves the io_context and all else but the promise as they are, and a second wait_stop
    -- throws, since the promise of the first is still there.
    pub restart_stays :
        (spawns : ThreadWorker → Bool) (others : NetworkServer S → NetworkServer S) (files : Files)
        (server : NetworkServer S)
        → IsSound server.thread_pool
        → let again = started spawns (waited server) in
          (files' : Files) × (files'' : Files) × (wait_stop ops
              (λ s. s)
              files
              (record server { io_context = true; promise = none })
            ≡ some (files', waited server, stop_each ops server.sessions, returns (true, none)))
          × (start ops true spawns files' (waited server) ≡ some (files'', again, (true, none)))
          × (stop ops files'' again
              ≡ some (files'', record again { promise = none }, [], (true, none)))
          × (wait_stop ops others files'' again ≡ some (files'', again, [], throws))
    unfolding stop wait_stop
    restart_stays spawns others files server sound =
        let (files', out) = timed_out files server sound in
        let (files'', on) = start-started spawns files' (waited server) tt in
        (files', files'', out, on, refl, refl)

    -- A session without its callbacks that has been stopped.
    abbrev pub silenced : S → S
    silenced session = ops.stop (ops.clear_callbacks session)

    stop_each-map :
        (sessions : List (Option S)) → stop_each ops sessions ≡ map silenced (present sessions)
    unfolding stop_each present
    stop_each-map [] = refl
    stop_each-map (none ∷ sessions) = stop_each-map sessions
    stop_each-map (some session ∷ sessions) = ap (◌∷◌ (silenced session)) (stop_each-map sessions)

    -- A server that is started on a port, takes a session and is stopped, while nobody waits for its end, has no
    -- session, io_context, acceptor and thread pool, and each of its sessions, that one included, has been
    -- stopped with its callbacks taken away.
    pub start_then_stop :
        (spawns : ThreadWorker → Bool) (files : Files) (server : NetworkServer S) (session : S)
        → IsSound server.thread_pool
        → (files' : Files) × (files'' : Files) × (start ops true spawns files
              (record server { io_context = false; promise = none })
            ≡ some (files', started spawns (record server { promise = none }), (true, none)))
          × (stop ops files'
                (accept (some session) (started spawns (record server { promise = none })))
              ≡ some (
                files'',
                record (released server) { sessions = []; promise = none },
                map silenced (present (server.sessions ++ (some session ∷ []))),
                (true, none),
              ))
    unfolding accept
    start_then_stop spawns files server session sound =
        let (files', on) = start-started spawns files (record server { promise = none }) sound in
        let (files'', off) =
          stop_releases files'
            (record (started spawns server) { sessions = server.sessions ++ (some session ∷ []) })
            (push_job-HasJobs (make_void_job long_term (codes "main_job_for_server") false)
              (fresh_pool spawns server.server_id) (fresh_pool-HasJobs spawns server.server_id)) in
        (files', files'', on, rw (stop_each-map (server.sessions ++ (some session ∷ []))) at off)
