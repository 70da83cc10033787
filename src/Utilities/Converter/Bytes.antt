-- ===== src/Utilities/Converter/Bytes.antt =====
-- Text written to bytes and read back.
use cpp_toolkit.Prelude.{
  ℕ, ◌≡◌, ◌↔◌, arith, true, false, List, [], ◌∷◌, nat_eq, length, drop, ◌+◌, ap, refl, Bool-cases,
  inl, inr,
}
use cpp_toolkit.Utilities.Converter.{to_array, to_string, has_bom}

drop_two : (value : List ℕ) → has_bom value ≡ true → length (drop 2 value) + 2 ≡ length value
unfolding has_bom
drop_two [] h = ground arith
drop_two (a ∷ []) h = ground arith
drop_two (a ∷ b ∷ value) h = omega arith

-- A text comes back from its bytes exactly when it does not start with a UTF-8 byte order mark.
pub to_string-to_array :
    (value : List ℕ) → (to_string (to_array value) ≡ value) ↔ (has_bom value ≡ false)
unfolding to_string to_array
to_string-to_array value = elim (Bool-cases (has_bom value)) [
  | inl bom ↦
      (λ h. absurd (omega (arith, drop_two value bom, ap length (rw bom at h))), λ h. ground arith)
  | inr none_there ↦ (λ h. none_there, λ h. rw none_there refl)
]
