-- ===== src/Utilities/Combiner/Fields.antt =====
-- Fields that `append` wrote are read back by `divide`.
use mathlib.Core.List.{append-nil, append_assoc, reverse-reverse}
use mathlib.Core.Path.{ap₂}
use cpp_toolkit.Prelude.{
  ℕ, ◌+◌, ◌^◌, ◌<◌, ◌≤◌, ◌≡◌, refl, sym, ap, ◌∙◌, arith, Option, some, List, [], ◌∷◌, ◌++◌, reverse,
  length, length-append, length-reverse, take, drop, take-append, drop-append, drop-drop, zero, suc,
}
use cpp_toolkit.Prelude.Bytes.{le_bytes, le_value, length-le_bytes, le_value-le_bytes}
use cpp_toolkit.Utilities.Combiner.{append, divide, divide_body, size_t, ◌>>=◌}

-- One field as it stands in memory.
unfoldable pub field : List ℕ → List ℕ
field source = le_bytes 8 (length source) ++ reverse source

pub append-field : (result source : List ℕ) → append result source ≡ result ++ field source
unfolding append field
append-field result [] = ap (◌++◌ result) (sym (append-nil (le_bytes 8 0)))
append-field result (x ∷ xs) =
    ground (arith, append_assoc result (le_bytes 8 (length (x ∷ xs))) (reverse (x ∷ xs)))

pub length-field : (source : List ℕ) → length (field source) ≡ 8 + length source
unfolding field
length-field source = omega (
  arith,
  length-append (le_bytes 8 (length source)) (reverse source),
  length-le_bytes 8 (length source),
  length-reverse source,
)

-- `divide` where the whole field lies in the array.
divide_body_within :
    (w : List ℕ) (i n : ℕ)
    → i + n ≤ length w
    → i + n < 2 ^ 64
    → divide_body w i n ≡ some (reverse (take n (drop i w)), i + n)
unfolding divide_body
divide_body_within w i zero within h = ground arith
divide_body_within w i (suc n) within h = ground arith

divide_within :
    (w : List ℕ) (i n : ℕ)
    → i + 8 + n ≤ length w
    → i + 8 + n < 2 ^ 64
    → le_value (take 8 (drop i w)) ≡ n
    → divide w i ≡ some (reverse (take n (drop (i + 8) w)), i + 8 + n)
unfolding divide
divide_within [] i n within h e = absurd (omega arith)
divide_within (x ∷ xs) i n within h e =
    let behind : size_t (i + 8) ≡ i + 8 = omega arith in
    rw (behind, e) (ground (arith, divide_body_within (x ∷ xs) (i + 8) n within h))

-- How far the pieces of `front ++ (field source ++ rest)` reach.
length-whole :
    (front source rest : List ℕ)
    → length (front ++ (field source ++ rest)) ≡ length front + 8 + length source + length rest
length-whole front source rest = omega (
  arith,
  length-append front (field source ++ rest),
  length-append (field source) rest,
  length-field source,
)

field_header :
    (source rest : List ℕ)
    → field source ++ rest ≡ le_bytes 8 (length source) ++ (reverse source ++ rest)
unfolding field
field_header source rest = append_assoc (le_bytes 8 (length source)) (reverse source) rest

header_value :
    (front source rest : List ℕ)
    → length source < 2 ^ 64
    → le_value (take 8 (drop (length front) (front ++ (field source ++ rest)))) ≡ length source
header_value front source rest h =
    ap (λ s. le_value (take 8 s))
      (drop-append (length front) front (field source ++ rest) refl ∙ field_header source rest)
    ∙ ap le_value (
        take-append 8 (le_bytes 8 (length source)) (reverse source ++ rest)
          (sym (length-le_bytes 8 (length source))))
    ∙ le_value-le_bytes 8 (length source) h

body_at :
    (front source rest : List ℕ)
    → drop (length front + 8) (front ++ (field source ++ rest)) ≡ reverse source ++ rest
body_at front source rest =
    sym (drop-drop 8 (length front) (front ++ (field source ++ rest)))
    ∙ ap (drop 8)
        (drop-append (length front) front (field source ++ rest) refl ∙ field_header source rest)
    ∙ drop-append 8 (le_bytes 8 (length source)) (reverse source ++ rest)
        (sym (length-le_bytes 8 (length source)))

pub divide-field :
    (front source rest : List ℕ)
    → length front + 8 + length source < 2 ^ 64
    → divide (front ++ (field source ++ rest)) (length front)
      ≡ some (source, length front + 8 + length source)
divide-field front source rest h =
    divide_within (front ++ (field source ++ rest)) (length front) (length source)
      (omega (arith, length-whole front source rest)) h
      (header_value front source rest (omega arith))
    ∙ ap (λ s. some (reverse s, length front + 8 + length source))
        (ap (take (length source)) (body_at front source rest)
          ∙ take-append (length source) (reverse source) rest (sym (length-reverse source)))
    ∙ ap (λ s. some (s, length front + 8 + length source)) (reverse-reverse source)

-- Fields appended one after the other, and as many calls of `divide`.
unfoldable pub append_each : List ℕ → List (List ℕ) → List ℕ
append_each result [] = result
append_each result (f ∷ fs) = append_each (append result f) fs

unfoldable pub divide_each : ℕ → List ℕ → ℕ → Option (List (List ℕ) × ℕ)
divide_each zero source index = some ([], index)
divide_each (suc n) source index =
    divide source index >>= λ p. divide_each n source p.1 >>= λ q. some (p.0 ∷ q.0, q.1)

abbrev pub fields : List (List ℕ) → List ℕ
fields [] = []
fields (f ∷ fs) = field f ++ fields fs

abbrev pub field_sizes : List (List ℕ) → ℕ
field_sizes [] = 0
field_sizes (f ∷ fs) = 8 + length f + field_sizes fs

pub append_each-fields :
    (result : List ℕ) (fs : List (List ℕ)) → append_each result fs ≡ result ++ fields fs
unfolding append_each
append_each-fields result [] = sym (append-nil result)
append_each-fields result (f ∷ fs) =
    append_each-fields (append result f) fs
    ∙ ap (λ r. r ++ fields fs) (append-field result f)
    ∙ append_assoc result (field f) (fields fs)

pub divide_each-fields :
    (front : List ℕ) (fs : List (List ℕ)) (rest : List ℕ)
    → length front + field_sizes fs < 2 ^ 64
    → divide_each (length fs) (front ++ (fields fs ++ rest)) (length front)
      ≡ some (fs, length front + field_sizes fs)
unfolding divide_each
divide_each-fields front [] rest h = ap (λ k. some ([], k)) (omega arith)
divide_each-fields front (f ∷ fs) rest h =
    let shape : front ++ (fields (f ∷ fs) ++ rest) ≡ front ++ (field f ++ (fields fs ++ rest)) =
      ap (◌++◌ front) (append_assoc (field f) (fields fs) rest) in
    let shape' : front ++ (field f ++ (fields fs ++ rest))
        ≡ (front ++ field f) ++ (fields fs ++ rest) =
      sym (append_assoc front (field f) (fields fs ++ rest)) in
    let reach : length (front ++ field f) ≡ length front + 8 + length f =
      omega (arith, length-append front (field f), length-field f) in
    let later = divide_each-fields (front ++ field f) fs rest (omega (arith, reach)) in
    rw (shape, divide-field front f (fields fs ++ rest) (omega arith), shape', ← reach, later)
      (ap (λ k. some (f ∷ fs, k)) (omega (arith, reach)))

-- Any sequence of fields is read back by as many calls of `divide`, whatever follows it, as long as
-- the whole is shorter than 2 ^ 64 bytes; `index` is left behind the last field.
pub divide_each-append_each :
    (fs : List (List ℕ)) (rest : List ℕ)
    → field_sizes fs < 2 ^ 64
    → divide_each (length fs) (append_each [] fs ++ rest) 0 ≡ some (fs, field_sizes fs)
divide_each-append_each fs rest h =
    rw (append_each-fields [] fs)
      (divide_each-fields [] fs rest (omega arith) ∙ ap (λ k. some (fs, k)) (omega arith))

fields-append : (fs gs : List (List ℕ)) → fields (fs ++ gs) ≡ fields fs ++ fields gs
fields-append [] gs = refl
fields-append (f ∷ fs) gs =
    ap (◌++◌ (field f)) (fields-append fs gs) ∙ sym (append_assoc (field f) (fields fs) (fields gs))

length-fields : (fs : List (List ℕ)) → length (fields fs) ≡ field_sizes fs
length-fields [] = refl
length-fields (f ∷ fs) =
    omega (arith, length-append (field f) (fields fs), length-field f, length-fields fs)

field_sizes-append :
    (fs gs : List (List ℕ)) → field_sizes (fs ++ gs) ≡ field_sizes fs + field_sizes gs
field_sizes-append [] gs = omega arith
field_sizes-append (f ∷ fs) gs = omega (arith, field_sizes-append fs gs)

-- A call of `divide` at any field of a sequence: the index moves from field to field.
pub divide_nth :
    (before : List (List ℕ)) (f : List ℕ) (after : List (List ℕ))
    → field_sizes (before ++ (f ∷ after)) < 2 ^ 64
    → divide (append_each [] (before ++ (f ∷ after))) (field_sizes before)
      ≡ some (f, field_sizes (before ++ (f ∷ [])))
divide_nth before f after h =
    let sizes = field_sizes-append before (f ∷ after) in
    let reach : length (fields before) + 8 + length f ≡ field_sizes (before ++ (f ∷ [])) =
      omega (arith, length-fields before, field_sizes-append before (f ∷ [])) in
    ap₂ divide (append_each-fields [] (before ++ (f ∷ after)) ∙ fields-append before (f ∷ after))
      (sym (length-fields before))
    ∙ divide-field (fields before) f (fields after) (omega (arith, sizes, length-fields before))
    ∙ ap (λ k. some (f, k)) reach
