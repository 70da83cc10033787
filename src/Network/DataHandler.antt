-- ===== src/Network/DataHandler.antt =====
-- Network/DataHandler.h and DataHandler.cpp: the reading side of a connection. Each read_ function asks
-- Boost.Asio for a number of bytes and returns; `complete` is the handler that runs once they are
-- there. What the handler of the next read will be is the state `pending`.
pub mod Reading
pub mod Reads
pub mod Framing
use cpp_toolkit.Prelude.{
  ℕ, zero, suc, ◌+◌, ◌-◌, Bool, true, false, not, ◌&&◌, ◌||◌, Option, none, some, List, [], ◌∷◌,
  ◌++◌, Eq, rank_eq, ◌≡◌, arith, ◌==◌, nat_eq, if◌then◌else◌, length, leb, ltb, take, drop,
  get_elem?,
}
use cpp_toolkit.Prelude.Bytes.{le_value}

pub data ConnectConditions : Type 0 where
  unconnected waiting expired confirmed : ConnectConditions

abbrev pub condition_rank : ConnectConditions → ℕ
condition_rank unconnected = 0
condition_rank waiting = 1
condition_rank expired = 2
condition_rank confirmed = 3

pub condition_rank_inj : (a b : ConnectConditions) → condition_rank a ≡ condition_rank b → a ≡ b
condition_rank_inj a b h = ground arith

instance abbrev pub condition_eq : Eq ConnectConditions
condition_eq = rank_eq condition_rank condition_rank_inj

abbrev pub length_size : ℕ
length_size = 8

-- The read that is under way: of the start tag from an index on, of the length, of a whole buffer or of
-- the last part of the data with so many bytes left, of the end tag from an index on; or none. `overrun` is a
-- read of the length into a buffer that does not hold it: undefined behaviour.
pub data Pending : Type 0 where
  idle : Pending
  start_code : ℕ → Pending
  length_code : Pending
  whole_buffer : ℕ → Pending
  last_part : ℕ → Pending
  end_code : ℕ → Pending
  overrun : Pending

-- socket: null, or open or not. `pushed` holds the data of the decompress jobs that were pushed, and
-- `disconnects` counts the calls of disconnected.
pub record Reader : Type 0 where
  pub condition : ConnectConditions
  pub socket : Option Bool
  pub thread_pool : Bool
  pub buffer_size : ℕ
  pub start_code_tag : List ℕ
  pub end_code_tag : List ℕ
  pub received_data : List ℕ
  pub pending : Pending
  pub pushed : List (List ℕ)
  pub disconnects : ℕ

-- condition(new_condition).
unfoldable pub set_condition : ConnectConditions → Reader → Reader
set_condition new_condition r =
    if r.condition == new_condition
    then r
    else if new_condition == expired
    then record r { condition = new_condition; disconnects = r.disconnects + 1 }
    else record r { condition = new_condition }

abbrev pub is_open : Option Bool → Bool
is_open none = false
is_open (some opened) = opened

-- What every read_ function does first; the rest of it is `go`.
unfoldable pub checked : (Reader → Reader) → Reader → Reader
unfolding set_condition
checked go r =
    if r.condition == expired
    then record r { pending = idle }
    else if not (is_open r.socket)
    then (let closed = set_condition expired r in record closed { pending = idle })
    else go r

unfoldable pub read_length_code : Reader → Reader
unfolding checked
read_length_code = checked (λ r.
    if ltb r.buffer_size length_size
    then record r { pending = overrun }
    else record r { pending = length_code })

unfoldable pub read_start_code : ℕ → Reader → Reader
unfolding checked read_length_code
read_start_code matched_index = checked (λ r.
    if matched_index == 4
    then read_length_code r
    else record r { received_data = []; pending = start_code matched_index })

unfoldable pub read_end_code : ℕ → Reader → Reader
unfolding checked read_start_code
read_end_code matched_index = checked (λ r.
    if matched_index == length r.end_code_tag
    then read_start_code 0 (record r {
      pushed = if r.thread_pool then r.pushed ++ (r.received_data ∷ []) else r.pushed;
      received_data = [];
    })
    else record r { pending = end_code matched_index })

unfoldable pub read_data : ℕ → Reader → Reader
unfolding checked read_end_code
read_data remained_data_length = checked (λ r.
    if remained_data_length == 0
    then read_end_code 0 r
    else if leb r.buffer_size remained_data_length
    then record r { pending = whole_buffer remained_data_length }
    else record r { pending = last_part remained_data_length })

-- receiving_buffers_[0] against an element of a tag.
unfoldable pub matches : List ℕ → ℕ → List ℕ → Bool
matches tag index [] = false
matches tag index (byte ∷ bytes) = elim (get_elem? tag index) [
  | none ↦ false
  | some code ↦ byte == code
]

-- The bytes that the pending read asks for.
unfoldable pub wants : Reader → ℕ
wants r = elim r.pending [
  | idle ↦ 0
  | start_code i ↦ 1
  | length_code ↦ length_size
  | whole_buffer n ↦ r.buffer_size
  | last_part n ↦ n
  | end_code i ↦ 1
  | overrun ↦ length_size
]

-- The handler once the bytes are there, without an error, behind its first two tests.
unfoldable pub handle : Pending → List ℕ → Reader → Reader
unfolding read_start_code read_data read_end_code matches
handle idle bytes r = r
handle overrun bytes r = r
handle (start_code i) bytes r =
    if not (length bytes == 1)
    then read_start_code 0 r
    else if not (matches r.start_code_tag i bytes)
    then read_start_code 0 r
    else read_start_code (i + 1) r
handle length_code bytes r =
    if not (length bytes == length_size) then read_start_code 0 r else read_data (le_value bytes) r
handle (whole_buffer n) bytes r =
    if not (length bytes == r.buffer_size)
    then read_start_code 0 r
    else read_data (n - length bytes) (record r { received_data = r.received_data ++ bytes })
handle (last_part n) bytes r =
    read_end_code 0 (record r { received_data = r.received_data ++ bytes })
handle (end_code i) bytes r =
    if not (length bytes == 1) || not (matches r.end_code_tag i bytes)
    then read_start_code 0 r
    else read_end_code (i + 1) r

-- The completion of the pending read: `failed` is its error code, `bytes` what was read.
unfoldable pub complete : Bool → List ℕ → Reader → Reader
unfolding set_condition handle
complete failed bytes r =
    if r.condition == expired
    then record r { pending = idle }
    else if failed
    then (let closed = set_condition expired r in record closed { pending = idle })
    else handle r.pending bytes r

-- No read is under way that is defined.
abbrev pub is_idle : Pending → Bool
is_idle idle = true
is_idle overrun = true
is_idle _ = false

-- The stream delivers the bytes that are asked for, as transfer_exactly has it. `none`: it has too few, or the
-- read is undefined.
unfoldable pub deliver : Reader → List ℕ → Option (Reader × List ℕ)
unfolding wants complete
deliver r stream =
    if is_idle r.pending || ltb (length stream) (wants r)
    then none
    else some (complete false (take (wants r) stream) r, drop (wants r) stream)
