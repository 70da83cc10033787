-- ===== src/Network/NetworkServer/Sessions.antt =====
-- The sessions of a NetworkServer are those of Network/NetworkSession: what the server calls of them, and what
-- becomes of them when it stops.
use cpp_toolkit.Prelude.{
  ◌≡◌, Bool, true, false, Option, none, some, List, [], ◌∷◌, ◌++◌, All, map, length, length-map,
}
use cpp_toolkit.Thread.Job.{Files, Text, Outcome}
use cpp_toolkit.Thread.ThreadWorker.{ThreadWorker}
use cpp_toolkit.Thread.ThreadPool.Jobs.{IsSound}
use cpp_toolkit.Network.DataHandler.{expired}
use cpp_toolkit.Network.Messages
use cpp_toolkit.Network.Messages.{Sender}
use cpp_toolkit.Network.SendingFiles
use cpp_toolkit.Network.Handshake.{Json}
use cpp_toolkit.Network.NetworkSession
use cpp_toolkit.Network.NetworkSession.{NetworkSession}
use cpp_toolkit.Network.NetworkSession.Lifecycle
use cpp_toolkit.Network.NetworkServer.{SessionOps, NetworkServer, accept, stop, start}
use cpp_toolkit.Network.NetworkServer.Lifecycle.{
  released, started, present, silenced, start_then_stop,
}

abbrev pub with_sender : NetworkSession → Sender × Outcome → NetworkSession × Outcome
with_sender session (sender, outcome) =
    (record session { line = record session.line { sender = sender } }, outcome)

-- The five callbacks are set to null.
abbrev pub without_callbacks : NetworkSession → NetworkSession
without_callbacks session = record session {
  line = record session.line { callback = none };
  messages = record session.messages {
    received_binary_callback = false;
    received_message_callback = false;
    received_file_callback = false;
  };
  received_files_callback = false;
}

-- The operations of a session that the server calls. `guid` is what Generator::guid gives; `files` are the
-- backups of jobs that a stop finds. A call that is undefined leaves the session as it is: a stop is
-- defined wherever the thread pool has its pool of jobs, by NetworkSession/Lifecycle.
unfoldable pub session_ops : Json → Files → Text → SessionOps NetworkSession
session_ops json files guid = record {
  id = λ s. s.line.id;
  sub_id = λ s. s.line.sub_id;
  condition = λ s. s.line.sender.condition;
  send_binary =
      λ binary message s. with_sender s (Messages.send_binary binary message s.line.sender);
  send_message = λ message s. with_sender s (Messages.send_message message s.line.sender);
  send_files = λ file_informations s.
      elim (SendingFiles.send_files guid file_informations s.line.sender) [
        | none ↦ (s, (false, none))
        | some sent ↦ with_sender s sent
      ];
  clear_callbacks = without_callbacks;
  stop = λ s. elim (NetworkSession.stop json files s) [ none ↦ s | some after ↦ after.1 ];
}

-- Its thread pool, if it has one, has its pool of jobs.
abbrev pub HasSoundPool : NetworkSession → Type 0
HasSoundPool session = IsSound session.line.sender.thread_pool

-- A session that nobody holds on to.
pub record IsReleased (session : NetworkSession) : Type 0 where
  pub line_expired : session.line.sender.condition ≡ expired
  pub reader_expired : session.messages.reader.condition ≡ expired
  pub no_socket : session.messages.reader.socket ≡ none
  pub no_pool : session.line.sender.thread_pool ≡ none
  pub no_file_pool : session.messages.file_manager.thread_pool ≡ none

module _ (json : Json) (files : Files) (guid : Text) where
  silenced-IsReleased :
      (session : NetworkSession)
      → HasSoundPool session
      → IsReleased (silenced (session_ops json files guid) session)
  unfolding session_ops
  silenced-IsReleased session sound =
      let (files', after, e, line, reader, shut, socket, pool, file_pool) =
        Lifecycle.stop_releases json files (without_callbacks session) sound in
      rw (silenced, e)
        record {
          line_expired = line;
          reader_expired = reader;
          no_socket = socket;
          no_pool = pool;
          no_file_pool = file_pool;
        }

  All-IsReleased :
      (sessions : List (Option NetworkSession))
      → All HasSoundPool (present sessions)
      → All IsReleased (map (silenced (session_ops json files guid)) (present sessions))
  All-IsReleased sessions = go (present sessions)
    where
      go :
          (sessions : List NetworkSession)
          → All HasSoundPool sessions
          → All IsReleased (map (silenced (session_ops json files guid)) sessions)
      go [] h = tt
      go (session ∷ sessions) (h, hs) = (silenced-IsReleased session h, go sessions hs)

  -- A server that is started, takes a session and is stopped, while nobody waits for its end: it says success,
  -- and stops as many sessions as it had and that one, each of which has expired, line and reader, and has
  -- no socket and no thread pool, and no more has its file manager. The thread pools of the server and the
  -- sessions, where there are any, have their pools of jobs.
  pub sessions_released :
      (spawns : ThreadWorker → Bool) (server : NetworkServer NetworkSession)
      (session : NetworkSession)
      → IsSound server.thread_pool
      → All HasSoundPool (present (server.sessions ++ (some session ∷ [])))
      → (files' : Files) × (files'' : Files) × (stopped : List NetworkSession) × (start
            (session_ops json files guid)
            true
            spawns
            files
            (record server { io_context = false; promise = none })
          ≡ some (files', started spawns (record server { promise = none }), (true, none)))
        × (stop
              (session_ops json files guid)
              files'
              (accept (some session) (started spawns (record server { promise = none })))
            ≡ some (
              files'',
              record (released server) { sessions = []; promise = none },
              stopped,
              (true, none),
            ))
        × (length stopped ≡ length (present (server.sessions ++ (some session ∷ []))))
        × All IsReleased stopped
  sessions_released spawns server session sound sounds =
      let ops = session_ops json files guid in
      let (files', files'', on, off) = start_then_stop ops spawns files server session sound in
      (
        files',
        files'',
        map (silenced ops) (present (server.sessions ++ (some session ∷ []))),
        on,
        off,
        length-map (silenced ops) (present (server.sessions ++ (some session ∷ []))),
        All-IsReleased (server.sessions ++ (some session ∷ [])) sounds,
      )
