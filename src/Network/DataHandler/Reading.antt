-- ===== src/Network/DataHandler/Reading.antt =====
-- The buffer is large enough, and an expired connection reads no more.
use cpp_toolkit.Prelude.{ℕ, ◌+◌, ◌-◌, ◌≤◌, ◌<◌, ◌≡◌, ◌≢◌, ◌++◌, arith, Bool, true, List, length}
use cpp_toolkit.Prelude.Bytes.{le_value}
use cpp_toolkit.Network.DataHandler.{
  Reader, Pending, idle, start_code, length_code, whole_buffer, last_part, end_code, overrun, wants,
  complete, handle, read_start_code, read_data, read_end_code, set_condition, expired, length_size,
  condition_eq,
}

-- A read of the last part asks for less than the buffer holds.
abbrev pub FitsPending : ℕ → Pending → Type 0
FitsPending size (last_part n) = n < size
FitsPending size _ = Unit {0}

abbrev pub Fits : Reader → Type 0
Fits r = FitsPending r.buffer_size r.pending

read_start_code-Fits : (i : ℕ) (r : Reader) → Fits (read_start_code i r)
unfolding read_start_code
read_start_code-Fits i r = ground arith

read_end_code-Fits : (i : ℕ) (r : Reader) → Fits (read_end_code i r)
unfolding read_end_code
read_end_code-Fits i r = ground arith

read_data-Fits : (n : ℕ) (r : Reader) → Fits (read_data n r)
unfolding read_data
read_data-Fits n r = ground (arith, read_end_code-Fits 0 r)

handle-Fits : (p : Pending) (bytes : List ℕ) (r : Reader) → Fits r → Fits (handle p bytes r)
unfolding handle
handle-Fits idle bytes r h = h
handle-Fits overrun bytes r h = h
handle-Fits (start_code i) bytes r h =
    ground (arith, read_start_code-Fits 0 r, read_start_code-Fits (i + 1) r)
handle-Fits length_code bytes r h =
    ground (arith, read_start_code-Fits 0 r, read_data-Fits (le_value bytes) r)
handle-Fits (whole_buffer n) bytes r h = ground (
  arith,
  read_start_code-Fits 0 r,
  read_data-Fits (n - length bytes) (record r { received_data = r.received_data ++ bytes }),
)
handle-Fits (last_part n) bytes r h =
    read_end_code-Fits 0 (record r { received_data = r.received_data ++ bytes })
handle-Fits (end_code i) bytes r h =
    ground (arith, read_start_code-Fits 0 r, read_end_code-Fits (i + 1) r)

-- Where the buffer has eight bytes at least and the pending read fits into it, it asks for no more bytes
-- than the buffer holds, and what is pending after its completion, failed or not and whatever the
-- bytes, fits again.
pub complete-Fits :
    (failed : Bool) (bytes : List ℕ) (r : Reader)
    → 8 ≤ r.buffer_size
    → Fits r
    → Fits (complete failed bytes r) × (wants r ≤ r.buffer_size)
unfolding complete wants
complete-Fits failed bytes r room h =
    (ground (arith, handle-Fits r.pending bytes r h), fits r.pending h)
  where
    fits :
        (p : Pending)
        → FitsPending r.buffer_size p
        → elim p [
          | idle ↦ 0
          | start_code i ↦ 1
          | length_code ↦ length_size
          | whole_buffer n ↦ r.buffer_size
          | last_part n ↦ n
          | end_code i ↦ 1
          | overrun ↦ length_size
        ]
          ≤ r.buffer_size
    fits idle k = omega arith
    fits (start_code i) k = omega arith
    fits length_code k = omega arith
    fits (whole_buffer n) k = omega arith
    fits (last_part n) k = omega arith
    fits (end_code i) k = omega arith
    fits overrun k = omega arith

-- Once the connection has expired, every completion leaves the handler with no read under way, nothing
-- pushed, and disconnected called no second time.
pub complete-expired :
    (failed : Bool) (bytes : List ℕ) (r : Reader)
    → r.condition ≡ expired
    → complete failed bytes r ≡ record r { pending = idle }
unfolding complete
complete-expired failed bytes r e = ground arith

-- A failed read ends a connection that has not expired: disconnected is called once.
pub complete-failed :
    (bytes : List ℕ) (r : Reader)
    → r.condition ≢ expired
    → complete true bytes r
      ≡ record r { condition = expired; disconnects = r.disconnects + 1; pending = idle }
unfolding complete set_condition
complete-failed bytes r e = ground (arith, condition_eq.beq_iff r.condition expired)
