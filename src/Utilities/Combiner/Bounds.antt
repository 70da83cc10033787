-- ===== src/Utilities/Combiner/Bounds.antt =====
-- When `divide` reads outside of the array, on bytes that need not come from `append`.
use cpp_toolkit.Prelude.{
  ℕ, ◌+◌, ◌^◌, ◌<◌, ◌≤◌, ◌≡◌, ◌↔◌, ◌≢◌, arith, zero, suc, Option, none, some, List, [], ◌∷◌, length,
  is_empty, take, drop, All, length-take, length-drop, false, ltb, lt→ltb,
}
use native.Mathlib.Decide.{dec_le}
use cpp_toolkit.Prelude.Bytes.{le_value, le_value-lt-pow, IsByte}
use cpp_toolkit.Utilities.Combiner.{divide, divide_body, size_at, size_t}

take-IsByte : (n : ℕ) (w : List ℕ) → All IsByte w → All IsByte (take n w)
take-IsByte zero w h = tt
take-IsByte (suc n) [] h = tt
take-IsByte (suc n) (b ∷ w) (hb, hw) = (hb, take-IsByte n w hw)

drop-IsByte : (n : ℕ) (w : List ℕ) → All IsByte w → All IsByte (drop n w)
drop-IsByte zero w h = h
drop-IsByte (suc n) [] h = tt
drop-IsByte (suc n) (b ∷ w) (hb, hw) = drop-IsByte n w hw

-- The size that the eight bytes at `index` claim.
abbrev pub claimed_size : List ℕ → ℕ → ℕ
claimed_size source index = le_value (take 8 (drop index source))

claimed_size-lt : (w : List ℕ) (i : ℕ) → All IsByte w → i + 8 ≤ length w → claimed_size w i < 2 ^ 64
claimed_size-lt w i b h =
    let bound =
      le_value-lt-pow (take 8 (drop i w)) (take-IsByte 8 (drop i w) (drop-IsByte i w b)) in
    let n : length (take 8 (drop i w)) ≡ 8 =
      omega (arith, length-take 8 (drop i w), length-drop i w) in
    rw n at bound

-- The sum of index and size wraps round, passes the test, and the copy leaves the array.
divide_body_wraps :
    (w : List ℕ) (i n : ℕ)
    → i ≤ length w
    → length w < 2 ^ 63
    → n < 2 ^ 64
    → 2 ^ 64 ≤ i + n
    → divide_body w i n ≡ none
unfolding divide_body
divide_body_wraps w i n hi hw hn over = ground arith

-- The new index is not before the old one, nor behind the array, and behind the old one after a field that
-- is not empty.
abbrev pub IsWithin : List ℕ → ℕ → Option (List ℕ × ℕ) → Type 0
IsWithin w i none = Unit {0}
IsWithin w i (some (field, j)) = (i ≤ j) × (j ≤ length w) × (is_empty field ≡ false → i < j)

divide_body-IsWithin :
    (w : List ℕ) (i n : ℕ) → i ≤ length w → length w < 2 ^ 63 → IsWithin w i (divide_body w i n)
unfolding divide_body
divide_body-IsWithin w i n hi hw = ground arith

divide_body_defined :
    (w : List ℕ) (i n : ℕ) → length w < 2 ^ 63 → i + n < 2 ^ 64 → divide_body w i n ≢ none
unfolding divide_body
divide_body_defined w i n hw fits = ground arith

IsWithin-earlier :
    (w : List ℕ) {i j : ℕ} (r : Option (List ℕ × ℕ)) → i ≤ j → IsWithin w j r → IsWithin w i r
IsWithin-earlier w none h k = tt
IsWithin-earlier w (some p) h (a, b, c) = (omega arith, b, λ full. omega (arith, c full))

short : (w : List ℕ) (k : ℕ) → k ≤ length w → ltb (length w) k ≡ false
short w k h = ground arith

size_within : (w : List ℕ) (i : ℕ) → i + 8 ≤ length w → size_at w i ≡ some (claimed_size w i)
unfolding size_at
size_within w i h = ground arith

-- Where `divide` returns, on an array shorter than 2 ^ 63 bytes and from an index within it, `index` has
-- moved neither backwards nor past the end of the array, and forwards if the field is not empty.
pub divide-IsWithin :
    (w : List ℕ) (i : ℕ) → i ≤ length w → length w < 2 ^ 63 → IsWithin w i (divide w i)
unfolding divide
divide-IsWithin [] i hi hw = ground arith
divide-IsWithin (x ∷ w) i hi hw =
    let behind : size_t (i + 8) ≡ i + 8 = omega arith in
    rw behind (elim (dec_le (i + 8) (length (x ∷ w))) [
      | yes room ↦
          rw (short (x ∷ w) (i + 8) room, size_within (x ∷ w) i room)
            (IsWithin-earlier (x ∷ w) (divide_body (x ∷ w) (i + 8) (claimed_size (x ∷ w) i))
              (omega arith) (divide_body-IsWithin (x ∷ w) (i + 8) (claimed_size (x ∷ w) i) room hw))
      | no cut ↦ rw (lt→ltb (length (x ∷ w)) (i + 8) (omega arith)) (ground arith)
    ])

-- On an array of bytes `divide` reads outside of it exactly if eight bytes follow `index`, and the
-- size that they claim takes the sum of index and size past 2 ^ 64.
pub divide_outside_iff :
    (w : List ℕ) (i : ℕ)
    → All IsByte w
    → i ≤ length w
    → length w < 2 ^ 63
    → (divide w i ≡ none) ↔ ((i + 8 ≤ length w) × (2 ^ 64 ≤ i + 8 + claimed_size w i))
unfolding divide
divide_outside_iff [] i b hi hw = ground arith
divide_outside_iff (x ∷ w) i b hi hw =
    let behind : size_t (i + 8) ≡ i + 8 = omega arith in
    rw behind (
      ground (
        arith,
        claimed_size-lt (x ∷ w) i b,
        divide_body_wraps (x ∷ w) (i + 8) (claimed_size (x ∷ w) i),
        divide_body_defined (x ∷ w) (i + 8) (claimed_size (x ∷ w) i),
      ))
