-- ===== src/Network/NetworkClient/Lifecycle.antt =====
-- The life of a client: what start and stop leave of it, and what becomes of one that is started again after
-- a wait_stop whose seconds ran out.
use cpp_toolkit.Prelude.{◌≡◌, refl, arith, ap, ◌∙◌, Bool, true, false, Option, none, some}
use cpp_toolkit.Thread.Job.{Files}
use cpp_toolkit.Thread.ThreadWorker.{ThreadWorker}
use cpp_toolkit.Thread.ThreadPool
use cpp_toolkit.Thread.ThreadPool.{ThreadPool, make_thread_pool, push_workers}
use cpp_toolkit.Thread.ThreadPool.Jobs.{IsSound, some_of, stop_defined, lock-HasJobs}
use cpp_toolkit.Network.DataHandler.{ConnectConditions, unconnected, waiting, expired}
use cpp_toolkit.Network.Messages.{send}
use cpp_toolkit.Network.Handshake.{Json, Client, set_client_condition}
use cpp_toolkit.Network.NetworkClient.{
  NetworkClient, with_pool, with_socket, destroy_pool, destroy_context, create_context,
  handler_pool, handler_workers, client_title, shut, start, stop, wait_stop, request_connection,
  with_line,
}

destroy_pool-none :
    (files : Files) (line : Client) (o : Option ThreadPool)
    → IsSound o
    → (files' : Files) × (destroy_pool files (with_pool o line)
        ≡ some (files', with_pool none line))
unfolding destroy_pool
destroy_pool-none files line none sound = (files, refl)
destroy_pool-none files line (some pool) sound =
    let (r, stopped) =
      some_of (ThreadPool.stop true files pool) (stop_defined true files pool sound) in
    (r.0, rw (destroy_pool, stopped) refl)

abbrev pub released : NetworkClient → NetworkClient
released client = record client { line = with_pool none client.line; io_context = false }

context_of :
    (files : Files) (client : NetworkClient) (o : Option ThreadPool)
    → IsSound o
    → (files' : Files) × (destroy_context files (record client { line = with_pool o client.line })
        ≡ some (files', released client))
unfolding destroy_context
context_of files client none sound =
    let (files', gone) = destroy_pool-none files client.line none tt in (files', rw gone refl)
context_of files client (some pool) sound =
    let (files', gone) =
      destroy_pool-none files client.line (some (ThreadPool.lock true pool))
        (lock-HasJobs pool sound) in
    (files', rw gone refl)

destroy_released :
    (files : Files) (client : NetworkClient)
    → IsSound client.line.sender.thread_pool
    → (files' : Files) × (destroy_context files client ≡ some (files', released client))
destroy_released files client = context_of files client client.line.sender.thread_pool

-- What stop and wait_stop leave.
abbrev pub shut_down : NetworkClient → NetworkClient
shut_down client =
    released (record client { line = with_socket false client.line; file_pool = false })

shut_releases :
    (files : Files) (client : NetworkClient)
    → IsSound client.line.sender.thread_pool
    → (files' : Files) × (shut files client ≡ some (files', shut_down client))
shut_releases files client =
    destroy_released files
      (record client { line = with_socket false client.line; file_pool = false })

-- The pool that create_thread_pool makes for a client.
abbrev pub fresh_pool : (ThreadWorker → Bool) → NetworkClient → ThreadPool
fresh_pool spawns client = handler_pool spawns (client_title client.line.id) client.line.id (
    handler_workers client.high_priority_count client.normal_priority_count
      client.low_priority_count)

create_fresh :
    (spawns : ThreadWorker → Bool) (files : Files) (client : NetworkClient)
    → IsSound client.line.sender.thread_pool
    → (files' : Files) × (create_context spawns files client
        ≡ some (
          files',
          record client {
            line = with_pool (some (fresh_pool spawns client)) client.line;
            io_context = true;
          },
        ))
unfolding create_context destroy_pool
create_fresh spawns files client sound =
    let (files', gone) = destroy_released files client sound in
    (files', rw (create_context, gone) refl)

condition_pool :
    (condition : ConnectConditions) (by_itself : Bool) (line : Client)
    → IsSound line.sender.thread_pool
    → IsSound (set_client_condition condition by_itself line).sender.thread_pool
unfolding set_client_condition
condition_pool condition by_itself line sound = rw kept sound
  where
    kept :
        (set_client_condition condition by_itself line).sender.thread_pool ≡ line.sender.thread_pool
    kept = ground arith

expired_line : (line : Client) → (set_client_condition expired true line).sender.condition ≡ expired
unfolding set_client_condition
expired_line line = ground arith

-- Where nobody waits for its end, stop of a client that runs leaves an expired line without a socket and a
-- thread pool, and no io_context; the file manager has no thread pool.
pub stop_expires :
    (files : Files) (client : NetworkClient)
    → IsSound client.line.sender.thread_pool
    → (files' : Files) × (after : NetworkClient) × (stop files
          (record client { io_context = true; promise = none })
        ≡ some (files', after))
      × (after.line.sender.condition ≡ expired)
      × (after.line.sender.socket ≡ false)
      × (after.line.sender.thread_pool ≡ none)
      × (after.io_context ≡ false)
      × (after.file_pool ≡ false)
unfolding stop
stop_expires files client sound =
    let gone = record client {
      io_context = true;
      promise = none;
      line = set_client_condition expired true client.line;
    } in
    let (files', e) = shut_releases files gone (condition_pool expired true client.line sound) in
    (files', shut_down gone, e, expired_line client.line, refl, refl, refl, refl)

-- A client once its time-out has passed.
abbrev pub waited : NetworkClient → NetworkClient
waited client = shut_down (record client { promise = some true; future_valid = true })

timed_out :
    (files : Files) (client : NetworkClient)
    → IsSound client.line.sender.thread_pool
    → (files' : Files) × (wait_stop
          (λ c. c)
          files
          (record client { io_context = true; promise = none })
        ≡ some (files', waited client, false))
unfolding wait_stop
timed_out files client sound =
    let (files', gone) =
      shut_releases files
        (record client { io_context = true; promise = some true; future_valid = true }) sound in
    (files', rw gone refl)

-- What start leaves but for its line.
abbrev pub Starts : NetworkClient → NetworkClient → Type 0
Starts before after =
    (after.io_context ≡ true)
    × (after.promise ≡ before.promise)
    × (after.future_valid ≡ before.future_valid)
    × (after.line.sender.condition ≡ waiting)

waiting_line :
    (line : Client)
    → (set_client_condition waiting false (with_socket true line)).sender.condition ≡ waiting
unfolding set_client_condition
waiting_line line = ground arith

request_condition :
    (json : Json) (line : Client)
    → (request_connection json line).sender.condition ≡ line.sender.condition
unfolding request_connection send
request_condition json line = ground arith

with_line-Starts :
    (spawns : ThreadWorker → Bool) (line : Client) (client : NetworkClient) (o : Option ThreadPool)
    → client.io_context ≡ true
    → line.sender.condition ≡ waiting
    → Starts client (with_line spawns line client o)
with_line-Starts spawns line client none on waits = (on, refl, refl, waits)
with_line-Starts spawns line client (some pool) on waits = (on, refl, refl, waits)

-- A start whose socket connects says success, and leaves a line that waits and an io_context.
start-Starts :
    (json : Json) (spawns : ThreadWorker → Bool) (files : Files) (client : NetworkClient)
    → IsSound client.line.sender.thread_pool
    → (files' : Files) × (after : NetworkClient) × (start json true spawns files client
        ≡ some (files', after, true))
      × Starts client after
unfolding start
start-Starts json spawns files client sound =
    let bare = record client { line = with_socket false client.line } in
    let (files1, gone) = destroy_released files bare sound in
    let clean = released bare in
    let reset = record clean { line = set_client_condition unconnected false clean.line } in
    let (files2, made) =
      create_fresh spawns files1 reset (condition_pool unconnected false clean.line tt) in
    let ready = record reset {
      line = with_pool (some (fresh_pool spawns reset)) reset.line;
      io_context = true;
    } in
    let line =
      request_connection json (set_client_condition waiting false (with_socket true ready.line)) in
    (
      files2,
      with_line spawns line ready line.sender.thread_pool,
      rw (start, gone, made) refl,
      with_line-Starts spawns line ready line.sender.thread_pool refl (
          request_condition json (set_client_condition waiting false (with_socket true ready.line))
          ∙ waiting_line ready.line),
    )

-- A client whose promise is there, with its future taken.
abbrev pub awaited : NetworkClient → NetworkClient
awaited client = record client { io_context = true; promise = some true; future_valid = true }

awaited_same :
    (client : NetworkClient)
    → client.io_context ≡ true
    → client.promise ≡ some true
    → client.future_valid ≡ true
    → client ≡ awaited client
awaited_same client on kept valid =
    ap (λ b. record client { io_context = b }) on
    ∙ ap (λ p. record client { io_context = true; promise = p }) kept
    ∙ ap (λ v. record client { io_context = true; promise = some true; future_valid = v }) valid

-- A client whose wait_stop has run out of its seconds can be started again, but then a stop only has the
-- line expire and takes the promise away: the io_context stays. A second wait_stop throws.
pub restart_stays_on :
    (json : Json) (spawns : ThreadWorker → Bool) (others : NetworkClient → NetworkClient)
    (files : Files) (client : NetworkClient)
    → IsSound client.line.sender.thread_pool
    → (files' : Files) × (files'' : Files) × (again : NetworkClient) × (wait_stop
          (λ c. c)
          files
          (record client { io_context = true; promise = none })
        ≡ some (files', waited client, false))
      × (start json true spawns files' (waited client) ≡ some (files'', again, true))
      × (again.io_context ≡ true)
      × (stop files'' again
          ≡ some (
            files'',
            record again { line = set_client_condition expired true again.line; promise = none },
          ))
      × (wait_stop others files'' again ≡ some (files'', again, true))
unfolding stop wait_stop
restart_stays_on json spawns others files client sound =
    let (files', out) = timed_out files client sound in
    let (files'', after, started, says) = start-Starts json spawns files' (waited client) tt in
    (
      files',
      files'',
      awaited after,
      out,
      started ∙ ap (λ c. some (files'', c, true)) (awaited_same after (says.0) (says.1) (says.2)),
      refl,
      refl,
      refl,
    )
