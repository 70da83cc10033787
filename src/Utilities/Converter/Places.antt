-- ===== src/Utilities/Converter/Places.antt =====
-- The places where find finds a token.
use native.Mathlib.Nat.{suc-add}
use cpp_toolkit.Prelude.{
  ℕ, zero, suc, ◌+◌, ◌-◌, ◌≤◌, ◌<◌, ◌≡◌, ◌≢◌, refl, sym, ap, ◌∙◌, arith, true, false, Option, none,
  some, List, [], ◌∷◌, ◌++◌, nat_eq, length, take, drop, drop-drop, length-drop, length-take,
  length-append, Bool-cases, inl, inr,
}
use cpp_toolkit.Utilities.Converter.{starts_with, index_of, find, substr}

starts_with_here :
    (token source : List ℕ)
    → starts_with token source ≡ true
    → token ++ drop (length token) source ≡ source
unfolding starts_with
starts_with_here [] source h = refl
starts_with_here (t ∷ token) [] h = absurd (ground arith)
starts_with_here (t ∷ token) (s ∷ source) h = ground (arith, starts_with_here token source)

-- A place that is found has the text before it, the token, and the text behind it.
IsPlace : List ℕ → List ℕ → ℕ → Type 0
IsPlace token source k = take k source ++ (token ++ drop (k + length token) source) ≡ source

index_of_later :
    (token source : List ℕ) (s j k : ℕ)
    → suc j ≡ k
    → IsPlace token source j
    → IsPlace token (s ∷ source) k
unfolding IsPlace
index_of_later token source s j zero e h = absurd (omega arith)
index_of_later token source s j (suc k) e h =
    let same : j ≡ k = omega arith in rw suc-add (ap (◌∷◌ s) (rw same at h))

index_of_here :
    (token source : List ℕ) (k : ℕ) → index_of token source ≡ some k → IsPlace token source k
unfolding index_of starts_with IsPlace
index_of_here [] [] k h = ground arith
index_of_here (t ∷ token) [] k h = absurd (ground arith)
index_of_here token (s ∷ source) k h = elim (Bool-cases (starts_with token (s ∷ source))) [
  | inl at_once ↦ ground (arith, starts_with_here token (s ∷ source) at_once)
  | inr later ↦ go (index_of token source) refl later (index_of_here token source)
]
  where
    go :
        (r : Option ℕ)
        → index_of token source ≡ r
        → starts_with token (s ∷ source) ≡ false
        → ((j : ℕ) → index_of token source ≡ some j → IsPlace token source j)
        → IsPlace token (s ∷ source) k
    go none e later ih = absurd (ground arith)
    go (some j) e later ih = index_of_later token source s j k (ground arith) (ih j e)

-- What find gives, from an offset on.
pub record Found (source token : List ℕ) (last_offset offset : ℕ) : Type 0 where
  pub behind : last_offset ≤ offset
  pub cut :
      substr source last_offset (offset - last_offset)
        ++ (token ++ drop (offset + length token) source)
      ≡ drop last_offset source

pub find-Found :
    (source token : List ℕ) (last_offset offset : ℕ)
    → find source token last_offset ≡ some offset
    → Found source token last_offset offset
unfolding find substr IsPlace
find-Found source token last_offset offset h = go (index_of token (drop last_offset source)) refl
  where
    go :
        (r : Option ℕ)
        → index_of token (drop last_offset source) ≡ r
        → Found source token last_offset offset
    go none e = absurd (ground arith)
    go (some k) e =
        let place = index_of_here token (drop last_offset source) k e in
        let at_k : last_offset + k ≡ offset = ground arith in
        record {
          behind = omega arith;
          cut =
              (let at_end : offset + length token ≡ last_offset + (k + length token) =
                  omega arith in
                let at_start : offset - last_offset ≡ k = omega arith in
                rw (at_end, at_start)
                  (rw (drop-drop (k + length token) last_offset source) at place));
        }

-- The next round starts within the source, and behind this one.
pub Found-next :
    (source token : List ℕ) (last_offset offset : ℕ)
    → length token ≢ 0
    → last_offset ≤ length source
    → Found source token last_offset offset
    → (last_offset < offset + length token) × (offset + length token ≤ length source)
unfolding substr
Found-next source token last_offset offset nonempty inside f =
    let before = substr source last_offset (offset - last_offset) in
    let after = drop (offset + length token) source in
    let sizes : length (drop last_offset source) ≡ length before + (length token + length after) =
      sym (ap length f.cut)
      ∙ (length-append before (token ++ after)
          ∙ ap (◌+◌ (length before)) (length-append token after)) in
    (
      omega (arith, f.behind),
      omega (
        arith,
        f.behind,
        sizes,
        length-take (offset - last_offset) (drop last_offset source),
        length-drop last_offset source,
        length-drop (offset + length token) source,
      ),
    )
