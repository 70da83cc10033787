-- ===== src/Network/NetworkSession/Lifecycle.antt =====
-- What start and stop leave of a session.
use cpp_toolkit.Prelude.{ℕ, ◌≡◌, refl, sym, ◌∙◌, ap, Bool, true, false, Option, none, some, []}
use cpp_toolkit.Thread.Job.{Files}
use cpp_toolkit.Thread.ThreadWorker.{ThreadWorker}
use cpp_toolkit.Thread.ThreadPool
use cpp_toolkit.Thread.ThreadPool.{ThreadPool, push_job}
use cpp_toolkit.Thread.ThreadPool.Jobs.{IsSound, some_of, stop_defined}
use cpp_toolkit.Network.DataHandler.{
  unconnected, waiting, expired, condition_eq, Reader, start_code, read_start_code,
}
use cpp_toolkit.Network.Handshake.{Json}
use cpp_toolkit.Network.NetworkClient.{handler_pool, handler_workers}
use cpp_toolkit.Network.NetworkSession.{
  NetworkSession, follow, enter, with_reader, with_pool, with_socket, with_file_pool,
  destroy_thread_pool, create_thread_pool, start, stop, session_title,
}
use cpp_toolkit.Network.NetworkSession.Lines.{reader_keeps, enter-Enters, followed}

abbrev begun : Reader → Reader
begun reader = record reader { received_data = []; pending = start_code 0 }

reads_start :
    (reader : Reader)
    → reader.condition ≡ waiting
    → reader.socket ≡ some true
    → read_start_code 0 reader ≡ begun reader
unfolding read_start_code
reads_start reader waits socket = rw (waits, socket) refl

module _ (json : Json) where
  destroyed :
      (files : Files) (session : NetworkSession)
      → IsSound session.line.sender.thread_pool
      → (files' : Files) × (destroy_thread_pool files session
          ≡ some (files', with_pool none session))
  unfolding destroy_thread_pool
  destroyed files session sound = go session.line.sender.thread_pool refl sound
    where
      go :
          (o : Option ThreadPool)
          → session.line.sender.thread_pool ≡ o
          → IsSound o
          → (files' : Files) × (destroy_thread_pool files session
              ≡ some (files', with_pool none session))
      go none e h = (files, rw (e, destroy_thread_pool) refl)
      go (some pool) e h =
          let (r, stopped) =
            some_of (ThreadPool.stop true files pool) (stop_defined true files pool h) in
          (r.0, rw (e, destroy_thread_pool) (rw stopped refl))

  -- stop of a session, with or without a thread pool, leaves its line and its reader expired and without a
  -- socket, and no thread pool, neither its own nor its file manager's.
  pub stop_releases :
      (files : Files) (session : NetworkSession)
      → IsSound session.line.sender.thread_pool
      → (files' : Files) × (after : NetworkSession) × (stop json files session
          ≡ some (files', after))
        × (after.line.sender.condition ≡ expired)
        × (after.messages.reader.condition ≡ expired)
        × (after.line.sender.socket ≡ false)
        × (after.messages.reader.socket ≡ none)
        × (after.line.sender.thread_pool ≡ none)
        × (after.messages.file_manager.thread_pool ≡ none)
  unfolding stop
  stop_releases files session sound =
      let gone = enter json expired session in
      let ((condition, left), reader) = enter-Enters json expired session sound in
      let (files', e) = destroyed files (with_file_pool none gone) left in
      (
        files',
        with_socket none (with_pool none (with_file_pool none gone)),
        rw e refl,
        condition,
        reader,
        refl,
        refl,
        refl,
        refl,
      )

  -- The pool that create_thread_pool makes for a session.
  abbrev fresh_pool : (ThreadWorker → Bool) → NetworkSession → ThreadPool
  fresh_pool spawns session = handler_pool spawns (session_title session.line.id) session.line.id (
      handler_workers session.high_priority_count session.normal_priority_count
        session.low_priority_count)

  created :
      (spawns : ThreadWorker → Bool) (files : Files) (session : NetworkSession)
      → IsSound session.line.sender.thread_pool
      → (files' : Files) × (create_thread_pool spawns files session
          ≡ some (files', with_pool (some (fresh_pool spawns session)) session))
  unfolding create_thread_pool
  created spawns files session sound =
      let (files', e) = destroyed files session sound in (files', rw (create_thread_pool, e) refl)

  -- The file manager has the thread pool of the session.
  abbrev HasPool : NetworkSession → Type 0
  HasPool after =
      (pool : ThreadPool) × (after.line.sender.thread_pool ≡ some pool)
      × (after.messages.file_manager.thread_pool ≡ some pool)

  -- What start leaves of a session that is given a socket.
  pub record Started (size : ℕ) (after : NetworkSession) : Type 0 where
    pub line_waits : after.line.sender.condition ≡ waiting
    pub reader_waits : after.messages.reader.condition ≡ waiting
    pub reads : after.messages.reader.pending ≡ start_code 0
    pub sized : after.messages.reader.buffer_size ≡ size
    pub pooled : HasPool after

  -- start with an open socket leaves a session whose line and reader wait, which reads for a start tag into a
  -- buffer of the given size, and whose file manager has its thread pool.
  pub start_waits :
      (spawns : ThreadWorker → Bool) (size : ℕ) (files : Files) (session : NetworkSession)
      → IsSound session.line.sender.thread_pool
      → (files' : Files) × (after : NetworkSession) × (start json spawns
            (some true)
            size
            files
            session
          ≡ some (files', after))
        × Started size after
  unfolding start
  start_waits spawns size files session sound =
      let first = enter json unconnected session in
      let ((first_condition, first_sound), first_reader) =
        enter-Enters json unconnected session sound in
      let sized =
        with_socket (some true)
          (with_reader (record first.messages.reader { buffer_size = size }) first) in
      let ready = enter json waiting sized in
      let ((condition, left), reader) = enter-Enters json waiting sized first_sound in
      let (files', e) = created spawns files ready left in
      let made =
        with_file_pool (some (fresh_pool spawns ready))
          (with_pool (some (fresh_pool spawns ready)) ready) in
      let (socket, kept_size) = reader_keeps waiting sized.messages.reader in
      let reading = begun made.messages.reader in
      (
        files',
        with_reader reading made,
        rw (start, e)
            (ap (λ r. some (files', follow json (with_reader r made)))
                (reads_start made.messages.reader reader socket)
              ∙ ap (λ s. some (files', s))
                  (followed json (with_reader reading made) (condition ∙ sym reader))),
        record {
          line_waits = condition;
          reader_waits = reader;
          reads = refl;
          sized = kept_size;
          pooled = (fresh_pool spawns ready, refl, refl);
        },
      )
