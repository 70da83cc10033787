-- ===== src/Network/DataHandler/Framing.antt =====
-- A frame on the stream: start tag, length in eight bytes, data, end tag. A reader that waits for a start
-- tag takes it in whole.
use mathlib.Core.List.{append_assoc, append-nil}
use mathlib.Core.Path.{subst}
use native.Mathlib.Decide.{dec_le}
use cpp_toolkit.Prelude.{
  ℕ, zero, suc, ◌+◌, ◌^◌, ◌≤◌, ◌<◌, ◌≡◌, ◌≢◌, refl, sym, ap, ◌∙◌, arith, some, List, [], ◌∷◌, ◌++◌,
  length, get_elem?, nat_eq, take, drop, take-append-drop, length-drop,
}
use cpp_toolkit.Prelude.Bytes.{le_bytes}
use cpp_toolkit.Network.DataHandler.{
  Reader, start_code, length_code, whole_buffer, last_part, end_code, complete, deliver, handle,
  read_start_code, read_end_code, condition_eq, matches,
}
use cpp_toolkit.Network.DataHandler.Reads.{
  Delivered, here, next, Delivered-trans, live, IsLive, start_byte, start_last, data_pending,
  length_read, whole_read, last_read,
}

one_step : {r r' : Reader} {s s' : List ℕ} → deliver r s ≡ some (r', s') → Delivered r s r' s'
one_step e = next e here

-- The data is taken in buffer after buffer; `k` bounds how much there is.
data_reads :
    (k : ℕ) (r : Reader) (received d rest : List ℕ)
    → IsLive r
    → length r.end_code_tag ≢ 0
    → 1 ≤ r.buffer_size
    → length d ≤ k
    → Delivered
        (live r (data_pending r.buffer_size (length d)) received)
        (d ++ rest)
        (live r (end_code 0) (received ++ d))
        rest
data_reads k r received [] rest l tagged room h =
    subst (λ x. Delivered (live r (end_code 0) received) rest (live r (end_code 0) x) rest)
      (sym (append-nil received)) here
data_reads zero r received (x ∷ d) rest l tagged room h = absurd (omega arith)
data_reads (suc k) r received (x ∷ d) rest l tagged room h =
    elim (dec_le r.buffer_size (length (x ∷ d))) [
      | yes full ↦
          let size = r.buffer_size in
          let later =
            data_reads k r (received ++ take size (x ∷ d)) (drop size (x ∷ d)) rest l tagged room
              (omega (arith, length-drop size (x ∷ d))) in
          let whole : (received ++ take size (x ∷ d)) ++ drop size (x ∷ d) ≡ received ++ (x ∷ d) =
            append_assoc received (take size (x ∷ d)) (drop size (x ∷ d))
            ∙ ap (◌++◌ received) (take-append-drop size (x ∷ d)) in
          rw (at_whole size (length d) full)
            (next (whole_read r received (x ∷ d) rest l tagged full) (rw whole at later))
      | no part ↦
          rw (at_last r.buffer_size (length d) (omega arith))
            (one_step (last_read r received (x ∷ d) rest l tagged))
    ]
  where
    at_whole : (size n : ℕ) → size ≤ suc n → data_pending size (suc n) ≡ whole_buffer (suc n)
    at_whole size n h = ground arith

    at_last : (size n : ℕ) → suc n < size → data_pending size (suc n) ≡ last_part (suc n)
    at_last size n h = ground arith

-- Both tags have four bytes, as start_code and end_code make them.
abbrev pub tag : ℕ → ℕ → ℕ → ℕ → List ℕ
tag a b c d = a ∷ b ∷ c ∷ d ∷ []

pub record IsTagged (r : Reader) : Type 0 where
  pub start_length : length r.start_code_tag ≡ 4
  pub end_length : length r.end_code_tag ≡ 4

start_reads :
    (r : Reader) (received rest : List ℕ)
    → IsLive r
    → length r.start_code_tag ≡ 4
    → Delivered
        (live r (start_code 0) received)
        (r.start_code_tag ++ rest)
        (live r length_code [])
        rest
start_reads r received rest l h = go r.start_code_tag refl h
  where
    go :
        (t : List ℕ)
        → r.start_code_tag ≡ t
        → length t ≡ 4
        → Delivered (live r (start_code 0) received) (t ++ rest) (live r length_code []) rest
    go (a ∷ b ∷ c ∷ d ∷ []) e n =
        next (start_byte r received 0 a (b ∷ c ∷ d ∷ rest) l (rw e) (omega arith)) (
          next (start_byte r [] 1 b (c ∷ d ∷ rest) l (rw e) (omega arith)) (
            next (start_byte r [] 2 c (d ∷ rest) l (rw e) (omega arith))
              (one_step (start_last r [] d rest l (rw e)))))
    go [] e n = absurd (omega arith)
    go (a ∷ []) e n = absurd (omega arith)
    go (a ∷ b ∷ []) e n = absurd (omega arith)
    go (a ∷ b ∷ c ∷ []) e n = absurd (omega arith)
    go (a ∷ b ∷ c ∷ d ∷ x ∷ t) e n = absurd (omega arith)

end_byte :
    (r : Reader) (received : List ℕ) (i c : ℕ) (rest : List ℕ)
    → IsLive r
    → get_elem? r.end_code_tag i ≡ some c
    → i + 1 < length r.end_code_tag
    → deliver (live r (end_code i) received) (c ∷ rest)
      ≡ some (live r (end_code (i + 1)) received, rest)
unfolding deliver complete handle read_end_code matches
end_byte r received i c rest l e h = ground (arith, l)

-- The reader behind a frame: it has pushed a decompress job on the data, and waits for a start tag.
abbrev pub taken : Reader → List ℕ → Reader
taken r d = record r { pending = start_code 0; received_data = []; pushed = r.pushed ++ (d ∷ []) }

end_last :
    (r : Reader) (received : List ℕ) (i c : ℕ) (rest : List ℕ)
    → IsLive r
    → get_elem? r.end_code_tag i ≡ some c
    → i + 1 ≡ length r.end_code_tag
    → deliver (live r (end_code i) received) (c ∷ rest) ≡ some (taken r received, rest)
unfolding deliver complete handle read_end_code matches read_start_code
end_last r received i c rest l e h = ground (arith, l)

end_reads :
    (r : Reader) (received rest : List ℕ)
    → IsLive r
    → length r.end_code_tag ≡ 4
    → Delivered (live r (end_code 0) received) (r.end_code_tag ++ rest) (taken r received) rest
end_reads r received rest l h = go r.end_code_tag refl h
  where
    go :
        (t : List ℕ)
        → r.end_code_tag ≡ t
        → length t ≡ 4
        → Delivered (live r (end_code 0) received) (t ++ rest) (taken r received) rest
    go (a ∷ b ∷ c ∷ d ∷ []) e n =
        next (end_byte r received 0 a (b ∷ c ∷ d ∷ rest) l (rw e) (rw e (omega arith))) (
          next (end_byte r received 1 b (c ∷ d ∷ rest) l (rw e) (rw e (omega arith))) (
            next (end_byte r received 2 c (d ∷ rest) l (rw e) (rw e (omega arith)))
              (one_step (end_last r received 3 d rest l (rw e) (rw e (omega arith))))))
    go [] e n = absurd (omega arith)
    go (a ∷ []) e n = absurd (omega arith)
    go (a ∷ b ∷ []) e n = absurd (omega arith)
    go (a ∷ b ∷ c ∷ []) e n = absurd (omega arith)
    go (a ∷ b ∷ c ∷ d ∷ x ∷ t) e n = absurd (omega arith)

abbrev pub frame : List ℕ → List ℕ → List ℕ → List ℕ
frame start d end = start ++ (le_bytes 8 (length d) ++ (d ++ end))

-- A live reader that waits for a start tag takes in a frame with its tags: it pushes exactly the data of
-- the frame, waits for a start tag again, and leaves what follows the frame on the stream. This
-- holds for all data shorter than 2 ^ 64 bytes and for every buffer of eight bytes or more; with a smaller
-- one the read of the length is undefined.
pub reads_frame :
    (r : Reader) (received d rest : List ℕ)
    → IsLive r
    → IsTagged r
    → length d < 2 ^ 64
    → Delivered
        (live r (start_code 0) received)
        (frame r.start_code_tag d r.end_code_tag ++ rest)
        (taken r d)
        rest
reads_frame r received d rest l t h =
    let tagged : length r.end_code_tag ≢ 0 = λ z. omega (arith, t.end_length) in
    let shape : frame r.start_code_tag d r.end_code_tag ++ rest
        ≡ r.start_code_tag ++ (le_bytes 8 (length d) ++ (d ++ (r.end_code_tag ++ rest))) =
      simp append_assoc in
    rw shape (
      Delivered-trans
        (start_reads r received (le_bytes 8 (length d) ++ (d ++ (r.end_code_tag ++ rest))) l
          t.start_length)
        (next (length_read r [] (length d) (d ++ (r.end_code_tag ++ rest)) l tagged h) (
          Delivered-trans
            (data_reads (length d) r [] d (r.end_code_tag ++ rest) l tagged (omega (arith, l.room))
              (omega arith))
            (end_reads r d rest l t.end_length))))
