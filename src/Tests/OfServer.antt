-- ===== src/Tests/OfServer.antt =====
-- The theorems on NetworkServer.cpp at concrete inputs: sessions that count what they send, and one that
-- does not send.
use cpp_toolkit.Prelude.{
  ℕ, ◌+◌, ◌≡◌, refl, Bool, true, false, none, some, [], ◌∷◌, ◌++◌, codes, map, bytes_eq,
}
use cpp_toolkit.Thread.Job.{Files, Text, Outcome}
use cpp_toolkit.Thread.ThreadWorker.{ThreadWorker}
use cpp_toolkit.Network.DataHandler.{confirmed}
use cpp_toolkit.Network.NetworkServer.{
  SessionOps, NetworkServer, make_server, send_loop, sent_by, drop_session, accept, stop_each, stop,
  wait_stop, start, returns, throws,
}
use cpp_toolkit.Network.NetworkServer.Sending.{reached, send_reaches, send_stops, send-drop_session}
use cpp_toolkit.Network.NetworkServer.Lifecycle.{
  released, started, waited, present, start_then_stop, restart_stays,
}

-- The id, what has been sent, and whether it sends.
abbrev Peer : Type 0
Peer = Text × ℕ × Bool

abbrev send_one : Peer → Peer × Outcome
send_one (id, sent, works) = ((id, sent + 1, works), (works, none))

abbrev peer_ops : SessionOps Peer
peer_ops = record {
  id = λ p. p.0;
  sub_id = λ p. codes "0";
  condition = λ p. confirmed;
  send_binary = λ binary message. send_one;
  send_message = λ message. send_one;
  send_files = λ files. send_one;
  clear_callbacks = λ p. p;
  stop = λ p. (p.0, p.1, false);
}

abbrev peer_a : Peer
peer_a = (codes "a", 0, true)

abbrev peer_b : Peer
peer_b = (codes "b", 0, false)

send_reaches_example :
    send_loop peer_ops send_one (codes "a") [] (some peer_a ∷ none ∷ some peer_b ∷ []) ≡ (
      map (reached peer_ops send_one (codes "a") []) (some peer_a ∷ none ∷ some peer_b ∷ []),
      (true, none),
    )
send_reaches_example =
    send_reaches peer_ops send_one (codes "a") [] (some peer_a ∷ none ∷ some peer_b ∷ [])
      (refl, (tt, (refl, tt)))

send_stops_example :
    send_loop peer_ops send_one [] [] ((some peer_a ∷ []) ++ some peer_b ∷ some peer_a ∷ []) ≡ (
      map (reached peer_ops send_one [] []) (some peer_a ∷ [])
          ++ reached peer_ops send_one [] [] (some peer_b) ∷ some peer_a ∷ [],
      (false, none),
    )
send_stops_example =
    send_stops peer_ops send_one [] [] (some peer_a ∷ []) peer_b (some peer_a ∷ []) none (refl, tt)
      refl refl

abbrev a_server : NetworkServer Peer
a_server = record (make_server Peer (codes "server")) { sessions = some peer_a ∷ some peer_b ∷ [] }

send-drop_session_example :
    let dropped = drop_session peer_ops (codes "a") (codes "0") a_server in
    (sent_by peer_ops send_one (codes "a") (codes "0") dropped ≡ (dropped, (true, none)))
    × ((sent_by peer_ops send_one (codes "b") [] dropped).1
        ≡ (sent_by peer_ops send_one (codes "b") [] a_server).1)
send-drop_session_example =
    send-drop_session peer_ops a_server send_one 97 48 [] [] (codes "b") [] refl refl

abbrev every_thread : ThreadWorker → Bool
every_thread worker = true

abbrev peer_a_stopped : Peer
peer_a_stopped = (codes "a", 0, false)

start_then_stop_example :
    (files' : Files) × (files'' : Files) × (start peer_ops true every_thread []
        (record a_server { io_context = false; promise = none })
      ≡ some (files', started every_thread (record a_server { promise = none }), (true, none)))
    × (stop peer_ops files'
          (accept (some peer_a) (started every_thread (record a_server { promise = none })))
        ≡ some (
          files'',
          record (released a_server) { sessions = []; promise = none },
          (peer_a_stopped ∷ peer_b ∷ peer_a_stopped ∷ []),
          (true, none),
        ))
unfolding make_server present
start_then_stop_example = start_then_stop peer_ops every_thread [] a_server peer_a tt

restart_stays_example :
    let again = started every_thread (waited peer_ops a_server) in
    (files' : Files) × (files'' : Files) × (wait_stop peer_ops
        (λ s. s)
        []
        (record a_server { io_context = true; promise = none })
      ≡ some (
        files',
        waited peer_ops a_server,
        stop_each peer_ops a_server.sessions,
        returns (true, none),
      ))
    × (start peer_ops true every_thread files' (waited peer_ops a_server)
        ≡ some (files'', again, (true, none)))
    × (stop peer_ops files'' again
        ≡ some (files'', record again { promise = none }, [], (true, none)))
    × (wait_stop peer_ops (λ s. s) files'' again ≡ some (files'', again, [], throws))
unfolding make_server
restart_stays_example = restart_stays peer_ops every_thread (λ s. s) [] a_server tt
