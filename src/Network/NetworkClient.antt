-- ===== src/Network/NetworkClient.antt =====
-- The life of Network/NetworkClient.cpp, with the thread pool and the socket that DataHandler.cpp keeps for
-- it. The line, what the handshake uses of the client, is that of Network/Handshake; the reads, which
-- start asks for, are in Network/DataHandler. Boost.Asio is seen through whether the socket connects.
pub mod Lifecycle
pub mod Receiving
use cpp_toolkit.Prelude.{
  ℕ, zero, suc, Bool, true, false, not, Option, none, some, List, [], ◌∷◌, ◌++◌, codes,
  if◌then◌else◌,
}
use cpp_toolkit.Utilities.Combiner.{◌>>=◌}
use cpp_toolkit.Utilities.Converter.{to_array}
use cpp_toolkit.Thread.JobPriorities.{JobPriorities, top, high, normal, low, long_term}
use cpp_toolkit.Thread.Job.{Job, Files, Text, make_void_job}
use cpp_toolkit.Thread.ThreadWorker.{ThreadWorker, make_worker}
use cpp_toolkit.Thread.ThreadPool
use cpp_toolkit.Thread.ThreadPool.{
  ThreadPool, make_thread_pool, push_worker, push_workers, push_job,
}
use cpp_toolkit.Network.DataHandler.{ConnectConditions, unconnected, waiting, expired}
use cpp_toolkit.Network.Messages.{Sender, connection, send}
use cpp_toolkit.Network.Handshake.{Json, Client, request_of, set_client_condition}

-- `promise` tells of promise_status_, if it is there, whether its future has been taken; `file_pool` whether
-- the file manager has the thread pool.
pub record NetworkClient : Type 0 where
  pub line : Client
  pub io_context : Bool
  pub promise : Option Bool
  pub future_valid : Bool
  pub file_pool : Bool
  pub high_priority_count : ℕ
  pub normal_priority_count : ℕ
  pub low_priority_count : ℕ

abbrev pub with_pool : Option ThreadPool → Client → Client
with_pool pool line = record line { sender = record line.sender { thread_pool = pool } }

-- socket(new_socket), and destroy_socket.
abbrev pub with_socket : Bool → Client → Client
with_socket socket line = record line { sender = record line.sender { socket = socket } }

-- destroy_thread_pool. `none` is the undefined behaviour of ThreadPool::stop.
unfoldable pub destroy_pool : Files → Client → Option (Files × Client)
destroy_pool files line = elim line.sender.thread_pool [
  | none ↦ some (files, line)
  | some pool ↦
      ThreadPool.stop true files pool >>= (λ stopped. some (stopped.0, with_pool none line))
]

abbrev pub repeat : ℕ → List JobPriorities → List ThreadWorker
repeat zero priorities = []
repeat (suc n) priorities = make_worker priorities (codes "ThreadWorker") ∷ repeat n priorities

-- The workers that DataHandler::create_thread_pool pushes, by the counts of the three priorities.
unfoldable pub handler_workers : ℕ → ℕ → ℕ → List ThreadWorker
handler_workers highs normals lows =
    make_worker (top ∷ []) (codes "ThreadWorker") ∷ repeat highs (high ∷ [])
    ++ repeat normals (normal ∷ high ∷ [])
    ++ repeat lows (low ∷ high ∷ normal ∷ [])

-- DataHandler::create_thread_pool, once the old pool is gone.
unfoldable pub handler_pool : (ThreadWorker → Bool) → Text → Text → List ThreadWorker → ThreadPool
handler_pool spawns title id workers =
    (ThreadPool.start spawns
      (push_workers spawns workers (ThreadPool.set_title id (make_thread_pool title)))).0

unfoldable pub destroy_context : Files → NetworkClient → Option (Files × NetworkClient)
destroy_context files client =
    destroy_pool files (
      with_pool
        (elim client.line.sender.thread_pool [
          | none ↦ none
          | some pool ↦ some (ThreadPool.lock true pool)
        ])
        client.line)
    >>= (λ destroyed. some (destroyed.0, record client { line = destroyed.1; io_context = false }))

abbrev pub client_title : Text → Text
client_title id = codes "ThreadPool on NetworkClient on " ++ id

unfoldable pub create_context :
    (ThreadWorker → Bool) → Files → NetworkClient → Option (Files × NetworkClient)
create_context spawns files client = destroy_context files client >>= (λ destroyed.
    let line = destroyed.1.line in
    destroy_pool destroyed.0 line >>= (λ again.
      let workers =
        handler_workers client.high_priority_count client.normal_priority_count
          client.low_priority_count in
      let pool = handler_pool spawns (client_title line.id) line.id workers in
      some
        (again.0, record destroyed.1 { io_context = true; line = with_pool (some pool) again.1 })))

-- What start does with its thread pool at its end.
abbrev pub main_pool : (ThreadWorker → Bool) → ThreadPool → ThreadPool
main_pool spawns pool =
    (push_job (some (make_void_job long_term (codes "main_job_for_client") false))
      (push_worker spawns (some (make_worker (long_term ∷ []) (codes "ThreadWorker"))) pool).0).0

-- The client with the line that start has made, by its thread pool.
abbrev pub with_line :
    (ThreadWorker → Bool) → Client → NetworkClient → Option ThreadPool → NetworkClient
with_line spawns line client none = record client { line = line; file_pool = false }
with_line spawns line client (some pool) = record client {
  line = with_pool (some (main_pool spawns pool)) line;
  file_pool = true;
}

-- request_connection, which drops what send returns.
unfoldable pub request_connection : Json → Client → Client
request_connection json line = record line {
  sender = (send connection (to_array (json.request_text (request_of line))) line.sender).0;
}

-- start. `connects` tells whether create_socket has a socket that is connected.
unfoldable pub start :
    Json
    → Bool
    → (ThreadWorker → Bool)
    → Files
    → NetworkClient
    → Option (Files × NetworkClient × Bool)
start json connects spawns files client =
    destroy_context files (record client { line = with_socket false client.line }) >>= (λ d.
      create_context spawns d.0
        (record d.1 { line = set_client_condition unconnected false d.1.line })
      >>= (λ c.
          if not connects
          then (destroy_context c.0 (record c.1 { line = with_socket false c.1.line })
              >>= (λ e. some (e.0, e.1, false)))
          else (let line =
                request_connection json
                  (set_client_condition waiting false (with_socket true c.1.line)) in
              some (c.0, with_line spawns line c.1 line.sender.thread_pool, true))))

-- The end of stop and wait_stop.
abbrev pub shut : Files → NetworkClient → Option (Files × NetworkClient)
shut files client =
    destroy_context files
      (record client { line = with_socket false client.line; file_pool = false })

unfoldable pub stop : Files → NetworkClient → Option (Files × NetworkClient)
stop files client =
    if not client.io_context
    then some (files, client)
    else (let gone = record client { line = set_client_condition expired true client.line } in
        elim client.promise [
          | some taken ↦
              if client.future_valid
              then some (files, record gone { promise = none })
              else shut files gone
          | none ↦ shut files gone
        ])

-- wait_stop, and whether get_future threw. `others` is what other threads do to the client while it waits.
unfoldable pub wait_stop :
    (NetworkClient → NetworkClient) → Files → NetworkClient → Option (Files × NetworkClient × Bool)
wait_stop others files client =
    if not client.io_context
    then some (files, client, false)
    else if elim client.promise [ none ↦ false | some taken ↦ taken ]
    then some (files, client, true)
    else (shut files (others (record client { promise = some true; future_valid = true }))
        >>= (λ s. some (s.0, s.1, false)))
