-- ===== src/Network/DataHandler/Reads.antt =====
-- The single reads of a live connection, over a stream that has their bytes.
use cpp_toolkit.Prelude.{
  ℕ, ◌+◌, ◌-◌, ◌^◌, ◌≤◌, ◌<◌, ◌≡◌, ◌≢◌, refl, sym, arith, true, false, some, List, [], ◌∷◌, ◌++◌,
  length, get_elem?, ◌==◌, leb, nat_eq, if◌then◌else◌, take-append_le, drop-append_le, take, drop,
  take-append, drop-append, length-append, length-take, length-drop,
}
use cpp_toolkit.Prelude.Bytes.{le_bytes, length-le_bytes, le_value-le_bytes}
use cpp_toolkit.Network.DataHandler.{
  Reader, Pending, start_code, length_code, whole_buffer, last_part, end_code, complete, deliver,
  handle, read_start_code, read_data, read_end_code, read_length_code, expired, condition_eq,
  matches,
}

-- The bytes of a stream are delivered one read after the other.
pub data Delivered : Reader → List ℕ → Reader → List ℕ → Type 0 where
  here : {r : Reader} {s : List ℕ} → Delivered r s r s
  next :
      {r r' r'' : Reader} {s s' s'' : List ℕ}
      → deliver r s ≡ some (r', s')
      → Delivered r' s' r'' s''
      → Delivered r s r'' s''

pub Delivered-trans :
    {r r' r'' : Reader} {s s' s'' : List ℕ}
    → Delivered r s r' s'
    → Delivered r' s' r'' s''
    → Delivered r s r'' s''
Delivered-trans here d = d
Delivered-trans (next e c) d = next e (Delivered-trans c d)

-- A live connection, at a read.
abbrev pub live : Reader → Pending → List ℕ → Reader
live r p received = record r { pending = p; received_data = received }

pub record IsLive (r : Reader) : Type 0 where
  pub unexpired : (r.condition == expired) ≡ false
  pub open_socket : r.socket ≡ some true
  pub pool : r.thread_pool ≡ true
  pub room : 8 ≤ r.buffer_size

-- The reads of the start tag, from any place in it.
pub start_byte :
    (r : Reader) (received : List ℕ) (i c : ℕ) (rest : List ℕ)
    → IsLive r
    → get_elem? r.start_code_tag i ≡ some c
    → i < 3
    → deliver (live r (start_code i) received) (c ∷ rest)
      ≡ some (live r (start_code (i + 1)) [], rest)
unfolding deliver complete handle read_start_code matches
start_byte r received i c rest l e h = ground (arith, l)

pub start_last :
    (r : Reader) (received : List ℕ) (c : ℕ) (rest : List ℕ)
    → IsLive r
    → get_elem? r.start_code_tag 3 ≡ some c
    → deliver (live r (start_code 3) received) (c ∷ rest) ≡ some (live r length_code received, rest)
unfolding deliver complete handle read_start_code matches read_length_code
start_last r received c rest l e = ground (arith, l)

-- The read that follows when so much data is left.
abbrev pub data_pending : ℕ → ℕ → Pending
data_pending size n =
    if n == 0 then end_code 0 else if leb size n then whole_buffer n else last_part n

read_data-live :
    (r : Reader) (p : Pending) (received : List ℕ) (n : ℕ)
    → IsLive r
    → length r.end_code_tag ≢ 0
    → read_data n (live r p received) ≡ live r (data_pending r.buffer_size n) received
unfolding read_data read_end_code
read_data-live r p received n l tagged = ground (arith, l)

pub length_read :
    (r : Reader) (received : List ℕ) (n : ℕ) (rest : List ℕ)
    → IsLive r
    → length r.end_code_tag ≢ 0
    → n < 2 ^ 64
    → deliver (live r length_code received) (le_bytes 8 n ++ rest)
      ≡ some (live r (data_pending r.buffer_size n) received, rest)
unfolding deliver complete handle
length_read r received n rest l tagged h = ground (
  arith,
  l,
  take-append 8 (le_bytes 8 n) rest (sym (length-le_bytes 8 n)),
  drop-append 8 (le_bytes 8 n) rest (sym (length-le_bytes 8 n)),
  length-append (le_bytes 8 n) rest,
  length-le_bytes 8 n,
  le_value-le_bytes 8 n h,
  read_data-live r length_code received n l tagged,
)

pub whole_read :
    (r : Reader) (received d rest : List ℕ)
    → IsLive r
    → length r.end_code_tag ≢ 0
    → r.buffer_size ≤ length d
    → deliver (live r (whole_buffer (length d)) received) (d ++ rest)
      ≡ some (
        live r
            (data_pending r.buffer_size (length (drop r.buffer_size d)))
            (received ++ take r.buffer_size d),
        drop r.buffer_size d ++ rest,
      )
unfolding deliver complete handle
whole_read r received d rest l tagged h = ground (
  arith,
  l,
  take-append_le r.buffer_size d rest h,
  drop-append_le r.buffer_size d rest h,
  length-append d rest,
  length-take r.buffer_size d,
  length-drop r.buffer_size d,
  read_data-live r (whole_buffer (length d)) (received ++ take r.buffer_size d)
      (length d - length (take r.buffer_size d)) l tagged,
)

pub last_read :
    (r : Reader) (received d rest : List ℕ)
    → IsLive r
    → length r.end_code_tag ≢ 0
    → deliver (live r (last_part (length d)) received) (d ++ rest)
      ≡ some (live r (end_code 0) (received ++ d), rest)
unfolding deliver complete handle read_end_code
last_read r received d rest l tagged = ground (
  arith,
  l,
  take-append (length d) d rest refl,
  drop-append (length d) d rest refl,
  length-append d rest,
)
