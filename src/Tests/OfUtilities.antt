-- ===== src/Tests/OfUtilities.antt =====
-- The theorems on Utilities/ at concrete inputs.
use mathlib.Core.List.{flatten}
use cpp_toolkit.Prelude.{
  ℕ, ◌+◌, ◌^◌, ◌≤◌, ◌≡◌, ◌↔◌, arith, none, some, List, [], ◌∷◌, ◌++◌, codes, length,
}
use cpp_toolkit.Utilities.Combiner.{divide}
use cpp_toolkit.Utilities.Combiner.Fields.{
  append_each, divide_each, field_sizes, divide_each-append_each,
}
use cpp_toolkit.Utilities.Combiner.Bounds.{claimed_size, divide_outside_iff}
use cpp_toolkit.Utilities.Converter.{split, replace2}
use cpp_toolkit.Utilities.Converter.Pieces.{split-replace2}

abbrev two_fields : List (List ℕ)
two_fields = (1 ∷ 2 ∷ []) ∷ (3 ∷ []) ∷ []

divide_each-append_each_example :
    divide_each 2 (append_each [] two_fields ++ (9 ∷ [])) 0
    ≡ some (two_fields, field_sizes two_fields)
divide_each-append_each_example = divide_each-append_each two_fields (9 ∷ []) (omega arith)

-- One field of one byte, and a size that no array has.
abbrev packed : List ℕ
packed = 1 ∷ 0 ∷ 0 ∷ 0 ∷ 0 ∷ 0 ∷ 0 ∷ 0 ∷ 7 ∷ []

abbrev huge : List ℕ
huge = 255 ∷ 255 ∷ 255 ∷ 255 ∷ 255 ∷ 255 ∷ 255 ∷ 255 ∷ []

divide_outside_iff_example :
    (divide huge 0 ≡ none) ↔ ((0 + 8 ≤ length huge) × (2 ^ 64 ≤ 0 + 8 + claimed_size huge 0))
divide_outside_iff_example =
    divide_outside_iff huge 0
      (
        omega arith,
        (
          omega arith,
          (
            omega arith,
            (omega arith, (omega arith, (omega arith, (omega arith, (omega arith, tt))))),
          ),
        ),
      )
      (omega arith) (omega arith)

split-replace2_example :
    (pieces : List (List ℕ)) × (split (codes "a,b") (codes ",") ≡ some pieces)
    × (replace2 (codes "a,b") (codes ",") [] ≡ some (flatten pieces))
split-replace2_example = split-replace2 (codes "a,b") (codes ",") (omega arith)
