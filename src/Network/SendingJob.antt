-- ===== src/Network/SendingJob.antt =====
-- Network/SendingJob.cpp: a frame is written to the socket. The socket is Boost.Asio's: a parameter, of
-- which the code relies on what its documentation of `send` says. The fuel of the data loop
-- is the number of bytes to send and one more, since every round sends a byte at least.
-- An error text is given by its fixed part, without the numbers that are printed into it.
pub mod Writing
use cpp_toolkit.Prelude.{
  ℕ, zero, suc, ◌+◌, ◌-◌, ◌≤◌, ◌≡◌, min, Bool, true, false, not, Option, none, some, List, [], ◌∷◌,
  ◌++◌, codes, if◌then◌else◌, ◌==◌, nat_eq, ltb, length, is_empty, take, drop,
}
use cpp_toolkit.Prelude.Bytes.{le_bytes}
use cpp_toolkit.Thread.Job.{Outcome, Text}

-- What socket->send comes to: it has taken so many bytes, or it throws, with a text.
pub data Sending : Type 0 where
  took : ℕ → Sending
  raised : Text → Sending

-- `sent` is what has gone out so far: send takes bytes from the front of what it is given.
pub record Socket : Type 1 where
  pub State : Type 0
  pub send : State → List ℕ → State × Sending
  pub sent : State → List ℕ
  pub send_front :
      (s : State) (bytes : List ℕ) (n : ℕ)
      → (send s bytes).1 ≡ took n
      → (n ≤ length bytes) × (sent (send s bytes).0 ≡ sent s ++ take n bytes)

-- How far a part of `working` came. `stuck` is a loop out of fuel.
pub data Part : Type 0 where
  done : Part
  failed : Text → Part
  threw : Text → Part
  stuck : Part

module _ (socket : Socket) where
  open socket use {State, send}

  unfoldable pub send_piece : Text → List ℕ → State → State × Part
  send_piece error bytes s =
      let (s', taken) = send s bytes in
      (
        s',
        elim taken [
          | took n ↦ if n == length bytes then done else failed error
          | raised what ↦ threw what
        ],
      )

  unfoldable pub send_data : ℕ → ℕ → List ℕ → ℕ → State → State × Part
  send_data zero buffer_size bytes index s = (s, stuck)
  send_data (suc fuel) buffer_size bytes index s =
      let chunk = take (min buffer_size (length bytes - index)) (drop index bytes) in
      let (s', taken) = send s chunk in
      let later = λ (n : ℕ). send_data fuel buffer_size bytes (index + n) s' in
      let round : State × Part = elim taken [
        | took zero ↦ (s', failed (codes "cannot send data"))
        | took (suc n) ↦ later (suc n)
        | raised what ↦ (s', threw what)
      ] in
      if ltb index (length bytes) then round else (s, done)

  -- The next part, if this one is done.
  unfoldable pub and_then : State × Part → (State → State × Part) → State × Part
  and_then (s, done) next = next s
  and_then (s, failed error) next = (s, failed error)
  and_then (s, threw what) next = (s, threw what)
  and_then (s, stuck) next = (s, stuck)

  unfoldable pub send_parts : List ℕ → List ℕ → List ℕ → ℕ → State → State × Part
  unfolding send_piece send_data and_then
  send_parts start_tag bytes end_tag buffer_size s =
      and_then (send_piece (codes "cannot send start code") start_tag s) λ s1.
        and_then (send_piece (codes "cannot send length code") (le_bytes 8 (length bytes)) s1) λ s2.
          and_then (send_data (suc (length bytes)) buffer_size bytes 0 s2)
            λ s3. send_piece (codes "cannot send end code") end_tag s3

  unfoldable pub outcome_of : State × Part → Option (State × Outcome)
  outcome_of (s, done) = some (s, (true, none))
  outcome_of (s, failed error) = some (s, (false, some error))
  outcome_of (s, threw what) = some (s, (false, some what))
  outcome_of (s, stuck) = none

  -- working(void). No socket is a null pointer.
  unfoldable pub working :
      List ℕ → List ℕ → List ℕ → ℕ → Option State → State → Option (State × Outcome)
  unfolding send_parts outcome_of
  working start_tag bytes end_tag buffer_size connection unused =
      if is_empty bytes
      then some (unused, (false, some (codes "cannot send to empty data")))
      else elim connection [
        | none ↦ some (unused, (false, some (codes "cannot send on null socket")))
        | some s ↦ outcome_of (send_parts start_tag bytes end_tag buffer_size s)
      ]
