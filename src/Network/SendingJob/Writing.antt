-- ===== src/Network/SendingJob/Writing.antt =====
-- What a sending job has written.
use mathlib.Core.List.{append_assoc, append-nil}
use cpp_toolkit.Prelude.{
  ℕ, zero, suc, ◌+◌, ◌-◌, ◌≤◌, ◌<◌, ◌≡◌, ◌≢◌, refl, sym, ap, ◌∙◌, arith, min, true, false, Option,
  none, some, List, ◌++◌, ◌==◌, nat_eq, ltb, length, is_empty, take, drop, take-append-drop,
  length-take, drop-drop, take_all, drop_all, take-take, codes, Bool-cases, inl, inr,
}
use native.Mathlib.Decide.{dec_lt}
use cpp_toolkit.Prelude.Bytes.{le_bytes}
use cpp_toolkit.Thread.Job.{Outcome, Text}
use cpp_toolkit.Network.DataHandler.Framing.{frame}
use cpp_toolkit.Network.SendingJob.{
  Socket, Sending, took, raised, Part, done, failed, threw, stuck, send_piece, send_data, and_then,
  send_parts, outcome_of, working,
}

module _ (socket : Socket) where
  open socket use {State, send, sent, send_front}

  -- A part that is done has written `bytes`, and no part runs out of fuel.
  abbrev Writes : State → List ℕ → State × Part → Type 0
  Writes s bytes (s', done) = sent s' ≡ sent s ++ bytes
  Writes s bytes (s', failed error) = Unit {0}
  Writes s bytes (s', threw what) = Unit {0}
  Writes s bytes (s', stuck) = ⊥

  send_piece-Writes :
      (error : Text) (bytes : List ℕ) (s : State) → Writes s bytes (send_piece socket error bytes s)
  unfolding send_piece
  send_piece-Writes error bytes s = go (send s bytes).1 refl
    where
      go : (t : Sending) → (send s bytes).1 ≡ t → Writes s bytes (send_piece socket error bytes s)
      go (raised what) e = rw (e, send_piece) tt
      go (took n) e = elim (Bool-cases (n == length bytes)) [
        | inl all ↦
            rw (e, send_piece, all)
              ((send_front s bytes n e).1 ∙ ap (◌++◌ (sent s)) (take_all n bytes (ground arith)))
        | inr short ↦ rw (e, send_piece, short) tt
      ]

  Writes-after :
      (s s' : State) (first second : List ℕ) (r : State × Part)
      → sent s' ≡ sent s ++ first
      → Writes s' second r
      → Writes s (first ++ second) r
  Writes-after s s' first second (s'', done) h k =
      k ∙ ap (λ x. x ++ second) h ∙ append_assoc (sent s) first second
  Writes-after s s' first second (s'', failed error) h k = tt
  Writes-after s s' first second (s'', threw what) h k = tt
  Writes-after s s' first second (s'', stuck) h k = k

  and_then-Writes :
      (s : State) (first second : List ℕ) (r : State × Part) (next : State → State × Part)
      → Writes s first r
      → ((s' : State) → Writes s' second (next s'))
      → Writes s (first ++ second) (and_then socket r next)
  unfolding and_then
  and_then-Writes s first second (s', done) next h later =
      Writes-after s s' first second (next s') h (later s')
  and_then-Writes s first second (s', failed error) next h later = tt
  and_then-Writes s first second (s', threw what) next h later = tt
  and_then-Writes s first second (s', stuck) next h later = h

  -- What a round of the data loop offers to the socket.
  abbrev chunk : ℕ → List ℕ → ℕ → List ℕ
  chunk buffer_size bytes index = take (min buffer_size (length bytes - index)) (drop index bytes)

  round_took :
      (fuel buffer_size : ℕ) (bytes : List ℕ) (index : ℕ) (s : State) (n : ℕ)
      → index < length bytes
      → (send s (chunk buffer_size bytes index)).1 ≡ took (suc n)
      → send_data socket (suc fuel) buffer_size bytes index s
        ≡ send_data socket fuel buffer_size bytes
            (index + suc n)
            (send s (chunk buffer_size bytes index)).0
  unfolding send_data
  round_took fuel buffer_size bytes index s n h e = rw (send_data, e) (ground arith)

  round_written :
      (buffer_size : ℕ) (bytes : List ℕ) (index : ℕ) (s : State) (n : ℕ)
      → (send s (chunk buffer_size bytes index)).1 ≡ took n
      → sent (send s (chunk buffer_size bytes index)).0 ≡ sent s ++ take n (drop index bytes)
  round_written buffer_size bytes index s n e =
      let front = send_front s (chunk buffer_size bytes index) n e in
      let room : n ≤ min buffer_size (length bytes - index) =
        omega (
          arith,
          front.0,
          length-take (min buffer_size (length bytes - index)) (drop index bytes),
        ) in
      front.1
      ∙ ap (◌++◌ (sent s))
          (take-take n (min buffer_size (length bytes - index)) (drop index bytes) room)

  -- One round, when the later rounds write what is left.
  round-Writes :
      (fuel buffer_size : ℕ) (bytes : List ℕ) (index : ℕ) (s : State) (t : Sending)
      → (send s (chunk buffer_size bytes index)).1 ≡ t
      → index < length bytes
      → ((n : ℕ) (s' : State)
          → Writes s'
              (drop (index + suc n) bytes)
              (send_data socket fuel buffer_size bytes (index + suc n) s'))
      → Writes s (drop index bytes) (send_data socket (suc fuel) buffer_size bytes index s)
  unfolding send_data
  round-Writes fuel buffer_size bytes index s (raised what) e inside later = rw (e) (ground arith)
  round-Writes fuel buffer_size bytes index s (took zero) e inside later = rw (e) (ground arith)
  round-Writes fuel buffer_size bytes index s (took (suc n)) e inside later =
      let rest = drop index bytes in
      let s' = (send s (chunk buffer_size bytes index)).0 in
      let left : Writes s' (drop (suc n) rest)
          (send_data socket fuel buffer_size bytes (index + suc n) s') =
        rw (drop-drop (suc n) index bytes) (later n s') in
      rw (round_took fuel buffer_size bytes index s n inside e) (
        let whole =
          Writes-after s s' (take (suc n) rest) (drop (suc n) rest)
            (send_data socket fuel buffer_size bytes (index + suc n) s')
            (round_written buffer_size bytes index s (suc n) e) left in
        rw (take-append-drop (suc n) rest) at whole)

  loop_ends :
      (fuel buffer_size : ℕ) (bytes : List ℕ) (index : ℕ) (s : State)
      → length bytes ≤ index
      → Writes s (drop index bytes) (send_data socket (suc fuel) buffer_size bytes index s)
  unfolding send_data
  loop_ends fuel buffer_size bytes index s past =
      rw (drop_all index bytes past, send_data, ltb_past index (length bytes) past)
        (sym (append-nil (sent s)))
    where
      ltb_past : (m n : ℕ) → n ≤ m → ltb m n ≡ false
      ltb_past m n h = ground arith

  -- With a unit of fuel for every byte that is left and one more, the loop ends.
  send_data-Writes :
      (fuel buffer_size : ℕ) (bytes : List ℕ) (index : ℕ) (s : State)
      → length bytes - index < fuel
      → Writes s (drop index bytes) (send_data socket fuel buffer_size bytes index s)
  send_data-Writes zero buffer_size bytes index s enough = absurd (omega arith)
  send_data-Writes (suc fuel) buffer_size bytes index s enough =
      elim (dec_lt index (length bytes)) [
        | no past ↦ loop_ends fuel buffer_size bytes index s (omega arith)
        | yes inside ↦
            round-Writes fuel buffer_size bytes index s (send s (chunk buffer_size bytes index)).1
              refl inside
              λ n s'. send_data-Writes fuel buffer_size bytes (index + suc n) s' (omega arith)
      ]

  send_parts-Writes :
      (start_tag bytes end_tag : List ℕ) (buffer_size : ℕ) (s : State)
      → Writes s
          (frame start_tag bytes end_tag)
          (send_parts socket start_tag bytes end_tag buffer_size s)
  unfolding send_parts
  send_parts-Writes start_tag bytes end_tag buffer_size s =
      and_then-Writes s start_tag (le_bytes 8 (length bytes) ++ (bytes ++ end_tag))
        (send_piece socket (codes "cannot send start code") start_tag s)
        (λ s1.
          and_then socket
            (send_piece socket (codes "cannot send length code") (le_bytes 8 (length bytes)) s1)
            λ s2.
              and_then socket (send_data socket (suc (length bytes)) buffer_size bytes 0 s2)
                λ s3. send_piece socket (codes "cannot send end code") end_tag s3)
        (send_piece-Writes (codes "cannot send start code") start_tag s)
        (λ s1.
          and_then-Writes s1 (le_bytes 8 (length bytes)) (bytes ++ end_tag)
            (send_piece socket (codes "cannot send length code") (le_bytes 8 (length bytes)) s1)
            (λ s2.
              and_then socket (send_data socket (suc (length bytes)) buffer_size bytes 0 s2)
                λ s3. send_piece socket (codes "cannot send end code") end_tag s3)
            (send_piece-Writes (codes "cannot send length code") (le_bytes 8 (length bytes)) s1)
            (λ s2.
              and_then-Writes s2 bytes end_tag
                (send_data socket (suc (length bytes)) buffer_size bytes 0 s2)
                (λ s3. send_piece socket (codes "cannot send end code") end_tag s3)
                (send_data-Writes (suc (length bytes)) buffer_size bytes 0 s2 (omega arith))
                (λ s3. send_piece-Writes (codes "cannot send end code") end_tag s3)))

  -- The run of the job and the socket behind it. A run that is not a success says why.
  abbrev pub IsSent : State → List ℕ → Option (State × Outcome) → Type 0
  IsSent s bytes none = ⊥
  IsSent s bytes (some (s', (true, error))) = sent s' ≡ sent s ++ bytes
  IsSent s bytes (some (s', (false, error))) = error ≢ none

  outcome_of-IsSent :
      (s : State) (bytes : List ℕ) (r : State × Part)
      → Writes s bytes r
      → IsSent s bytes (outcome_of socket r)
  unfolding outcome_of
  outcome_of-IsSent s bytes (s', done) h = h
  outcome_of-IsSent s bytes (s', failed error) h = λ e. ground arith
  outcome_of-IsSent s bytes (s', threw what) h = λ e. ground arith
  outcome_of-IsSent s bytes (s', stuck) h = h

  -- On a socket that takes its bytes from the front of what it is given, a sending job with data always
  -- returns: either with an error text, or with true, and then exactly one frame (start tag,
  -- length, data, end tag) has gone out. This holds for every buffer size and however the socket
  -- cuts the data.
  pub working_sends :
      (start_tag bytes end_tag : List ℕ) (buffer_size : ℕ) (s unused : State)
      → is_empty bytes ≡ false
      → IsSent s
          (frame start_tag bytes end_tag)
          (working socket start_tag bytes end_tag buffer_size (some s) unused)
  unfolding working
  working_sends start_tag bytes end_tag buffer_size s unused some_data = rw some_data (
      outcome_of-IsSent s (frame start_tag bytes end_tag)
        (send_parts socket start_tag bytes end_tag buffer_size s)
        (send_parts-Writes start_tag bytes end_tag buffer_size s))
