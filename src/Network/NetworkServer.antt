-- ===== src/Network/NetworkServer.antt =====
-- Network/NetworkServer.h and NetworkServer.cpp: the list of sessions, the life of the server and the
-- handlers that the sessions call. A session is used through `SessionOps`, what the server calls of
-- NetworkSession. Boost.Asio is seen through what it answers: whether the acceptor can be made, and whether
-- run throws. The lock of the sessions is held by each function that changes them; log lines are left out.
pub mod Sending
pub mod Lifecycle
pub mod Callbacks
pub mod Sessions
use cpp_toolkit.Prelude.{
  ℕ, Bool, true, false, not, ◌&&◌, ◌||◌, Option, none, some, List, [], ◌∷◌, ◌++◌, codes,
  if◌then◌else◌, ◌==◌, bytes_eq, is_empty,
}
use cpp_toolkit.Utilities.Combiner.{◌>>=◌}
use cpp_toolkit.Thread.JobPriorities.{JobPriorities, high, normal, low, long_term}
use cpp_toolkit.Thread.Job.{Job, Files, Text, Outcome, make_data_job, make_void_job}
use cpp_toolkit.Thread.ThreadWorker.{ThreadWorker, make_worker}
use cpp_toolkit.Thread.ThreadPool
use cpp_toolkit.Thread.ThreadPool.{ThreadPool, make_thread_pool, push_workers, push_job}
use cpp_toolkit.Network.DataHandler.{ConnectConditions, expired, condition_eq}

-- What the server calls of a session. `clear_callbacks` sets its five callbacks to null.
pub record SessionOps {ℓ} (S : Type ℓ) : Type ℓ where
  pub id : S → Text
  pub sub_id : S → Text
  pub condition : S → ConnectConditions
  pub send_binary : List ℕ → Text → S → S × Outcome
  pub send_message : Text → S → S × Outcome
  pub send_files : List (Text × Text) → S → S × Outcome
  pub clear_callbacks : S → S
  pub stop : S → S

-- `promise` tells of promise_status_, if it is there, whether its future has been taken.
pub record NetworkServer {ℓ} (S : Type ℓ) : Type ℓ where
  pub server_id : Text
  pub sessions : List (Option S)
  pub io_context : Bool
  pub acceptor : Bool
  pub thread_pool : Option ThreadPool
  pub promise : Option Bool
  pub future_valid : Bool

unfoldable pub make_server {ℓ} : (S : Type ℓ) → Text → NetworkServer S
make_server S server_id = record {
  server_id = server_id;
  sessions = [];
  io_context = false;
  acceptor = false;
  thread_pool = none;
  promise = none;
  future_valid = false;
}

-- destroy_thread_pool. `none` is the undefined behaviour of ThreadPool::stop.
unfoldable pub destroy_thread_pool {ℓ} :
    {S : Type ℓ} → Files → NetworkServer S → Option (Files × NetworkServer S)
destroy_thread_pool files server = elim server.thread_pool [
  | none ↦ some (files, server)
  | some pool ↦
      ThreadPool.stop true files pool
      >>= (λ stopped. some (stopped.0, record server { thread_pool = none }))
]

unfoldable pub destroy_io_context {ℓ} :
    {S : Type ℓ} → Files → NetworkServer S → Option (Files × NetworkServer S)
destroy_io_context files server = destroy_thread_pool files (record server {
  thread_pool = elim server.thread_pool [
    | none ↦ none
    | some pool ↦ some (ThreadPool.lock true pool)
  ];
  acceptor = false;
  io_context = false;
})

-- The four workers that create_thread_pool pushes.
abbrev pub server_workers : List ThreadWorker
server_workers =
    make_worker (high ∷ []) (codes "ThreadWorker")
    ∷ make_worker (normal ∷ []) (codes "ThreadWorker")
    ∷ make_worker (low ∷ []) (codes "ThreadWorker")
    ∷ make_worker (long_term ∷ []) (codes "ThreadWorker")
    ∷ []

abbrev pub pool_title : Text → Text
pool_title server_id = codes "ThreadPool on NetworkServer on " ++ server_id

-- What the start of the pool returns is dropped; it cannot throw, as the workers are new.
unfoldable pub create_thread_pool {ℓ} :
    {S : Type ℓ}
    → (ThreadWorker → Bool)
    → Files
    → NetworkServer S
    → Option (Files × NetworkServer S)
create_thread_pool spawns files server = destroy_thread_pool files server >>= (λ destroyed.
    let pool =
      push_workers spawns server_workers (make_thread_pool (pool_title server.server_id)) in
    some (destroyed.0, record destroyed.1 { thread_pool = some (ThreadPool.start spawns pool).0 }))

-- create_io_context, and what it returns. `binds` tells whether the acceptor can be made.
unfoldable pub create_io_context {ℓ} :
    {S : Type ℓ}
    → Bool
    → (ThreadWorker → Bool)
    → Files
    → NetworkServer S
    → Option (Files × NetworkServer S × Bool)
create_io_context binds spawns files server = destroy_io_context files server >>= (λ destroyed.
    let server' = record destroyed.1 { io_context = true } in
    if binds
    then (create_thread_pool spawns destroyed.0 (record server' { acceptor = true })
        >>= (λ created. some (created.0, created.1, true)))
    else (destroy_io_context destroyed.0 (record server' { acceptor = false })
        >>= (λ again. some (again.0, again.1, false))))

-- The handler that wait_connection registers: `accepted` is the session, once started, or an error.
unfoldable pub accept {ℓ} : {S : Type ℓ} → Option S → NetworkServer S → NetworkServer S
accept none server = server
accept (some session) server = record server { sessions = server.sessions ++ (some session ∷ []) }

unfoldable pub received_connection {ℓ} :
    {S : Type ℓ} → List ℕ → NetworkServer S → NetworkServer S × Outcome
received_connection condition server = elim server.thread_pool [
  | none ↦ (server, (false, some (codes "there is no thread pool handle")))
  | some pool ↦
      let (pool', outcome, notified) =
        push_job (some (make_data_job normal condition (codes "received_connection_job") true))
          pool in
      (record server { thread_pool = some pool' }, outcome)
]

-- run. io_context::run returns, or throws with a message.
unfoldable pub run {ℓ} : {S : Type ℓ} → Option Text → NetworkServer S → NetworkServer S × Outcome
run none server = (server, (true, none))
run (some message) server = (
  record server { io_context = false },
  (
    false,
    some (
        codes "stop io_context on NetworkServer for "
        ++ server.server_id
        ++ codes " => "
        ++ message),
  ),
)

-- How an operation ends: it returns, or std::promise::get_future throws.
pub data Ended : Type 0 where
  returns : Outcome → Ended
  throws : Ended

module _ {ℓ} {S : Type ℓ} (ops : SessionOps S) where
  -- The guards of the loops of send_binary, send_message and send_files.
  abbrev pub is_addressed : Text → Text → S → Bool
  is_addressed id sub_id session =
      is_empty id || ((id == ops.id session) && (is_empty sub_id || (sub_id == ops.sub_id session)))

  -- Those loops, up to the first session that does not send.
  unfoldable pub send_loop :
      (S → S × Outcome) → Text → Text → List (Option S) → List (Option S) × Outcome
  send_loop send id sub_id [] = ([], (true, none))
  send_loop send id sub_id (none ∷ sessions) =
      let (rest, outcome) = send_loop send id sub_id sessions in (none ∷ rest, outcome)
  send_loop send id sub_id (some session ∷ sessions) =
      let (rest, outcome) = send_loop send id sub_id sessions in
      let (sent, answer) = send session in
      if not (is_addressed id sub_id session)
      then (some session ∷ rest, outcome)
      else if answer.0
      then (some sent ∷ rest, outcome)
      else (some sent ∷ sessions, answer)

  abbrev pub sent_by : (S → S × Outcome) → Text → Text → NetworkServer S → NetworkServer S × Outcome
  sent_by send id sub_id server =
      let (sessions, outcome) = send_loop send id sub_id server.sessions in
      (record server { sessions = sessions }, outcome)

  unfoldable pub send_binary :
      List ℕ → Text → Text → Text → NetworkServer S → NetworkServer S × Outcome
  unfolding send_loop
  send_binary binary message id sub_id = sent_by (ops.send_binary binary message) id sub_id

  unfoldable pub send_message : Text → Text → Text → NetworkServer S → NetworkServer S × Outcome
  unfolding send_loop
  send_message message id sub_id = sent_by (ops.send_message message) id sub_id

  unfoldable pub send_files :
      List (Text × Text) → Text → Text → NetworkServer S → NetworkServer S × Outcome
  unfolding send_loop
  send_files file_informations id sub_id = sent_by (ops.send_files file_informations) id sub_id

  -- The loops that drop sessions: null and those of `gone` are left out.
  unfoldable pub drop_where : (S → Bool) → List (Option S) → List (Option S)
  drop_where gone [] = []
  drop_where gone (none ∷ sessions) = drop_where gone sessions
  drop_where gone (some session ∷ sessions) =
      let rest = drop_where gone sessions in if gone session then rest else some session ∷ rest

  unfoldable pub drop_session : Text → Text → NetworkServer S → NetworkServer S
  drop_session id sub_id server = record server {
    sessions = drop_where (λ s. (id == ops.id s) && (sub_id == ops.sub_id s)) server.sessions;
  }

  unfoldable pub drop_sessions_of : Text → NetworkServer S → NetworkServer S
  drop_sessions_of id server = record server {
    sessions = drop_where (λ s. id == ops.id s) server.sessions;
  }

  unfoldable pub stop_each : List (Option S) → List S
  stop_each [] = []
  stop_each (none ∷ sessions) = stop_each sessions
  stop_each (some session ∷ sessions) = ops.stop (ops.clear_callbacks session) ∷ stop_each sessions

  -- drop_sessions(), with the sessions that it has stopped.
  unfoldable pub drop_sessions : NetworkServer S → NetworkServer S × List S
  unfolding stop_each
  drop_sessions server = (record server { sessions = [] }, stop_each server.sessions)

  -- received_connection_handler once the message is parsed: its id, sub_id and condition. `callback` is
  -- received_connection_callback_.
  unfoldable pub received_connection_handler :
      Option (Text → Text → Bool → Outcome)
      → Text
      → Text
      → Bool
      → NetworkServer S
      → NetworkServer S × Outcome
  unfolding drop_where
  received_connection_handler callback id sub_id condition server =
      let server' =
        if not condition
        then record server {
          sessions = drop_where (λ s. ops.condition s == expired) server.sessions;
        }
        else server in
      elim callback [
        | none ↦
            (server', (false, some (codes "there is no callback to handle received connection")))
        | some call ↦ (server', call id sub_id condition)
      ]

  -- The end of stop and wait_stop.
  abbrev pub shut : Files → NetworkServer S → Option (Files × NetworkServer S × List S)
  shut files server =
      let (dropped, stopped) = drop_sessions server in
      destroy_io_context files dropped >>= (λ destroyed. some (destroyed.0, destroyed.1, stopped))

  unfoldable pub stop :
      Files → NetworkServer S → Option (Files × NetworkServer S × List S × Outcome)
  unfolding drop_sessions
  stop files server =
      if not server.io_context
      then some (files, server, [], (false, some (codes "io_context is null")))
      else elim server.promise [
        | some taken ↦
            if server.future_valid
            then some (files, record server { promise = none }, [], (true, none))
            else shut files server >>= (λ s. some (s.0, s.1, s.2, (true, none)))
        | none ↦ shut files server >>= (λ s. some (s.0, s.1, s.2, (true, none)))
      ]

  -- wait_stop. `others` is what other threads do to the server while it waits, for a number of seconds or
  -- until the promise is kept.
  unfoldable pub wait_stop :
      (NetworkServer S → NetworkServer S)
      → Files
      → NetworkServer S
      → Option (Files × NetworkServer S × List S × Ended)
  unfolding drop_sessions
  wait_stop others files server =
      if not server.io_context
      then some (files, server, [], returns (false, some (codes "io_context is null")))
      else if elim server.promise [ none ↦ false | some taken ↦ taken ]
      then some (files, server, [], throws)
      else shut files (others (record server { promise = some true; future_valid = true }))
        >>= (λ s. some (s.0, s.1, s.2, returns (true, none)))

  -- start. The handler of wait_connection comes later, from the io_context.
  unfoldable pub start :
      Bool
      → (ThreadWorker → Bool)
      → Files
      → NetworkServer S
      → Option (Files × NetworkServer S × Outcome)
  start binds spawns files server = stop files server >>= (λ s.
      create_io_context binds spawns s.0 s.1 >>= (λ c.
        let (files', server', made) = c in
        if not made
        then stop files' server' >>= (λ again. some (again.0, again.1, (false, some [])))
        else some (
          files',
          record server' {
            thread_pool = elim server'.thread_pool [
              | none ↦ none
              | some pool ↦
                  some
                    (push_job (some (make_void_job long_term (codes "main_job_for_server") false))
                      pool).0
            ];
          },
          (true, none),
        )))
