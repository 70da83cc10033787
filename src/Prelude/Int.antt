-- ===== src/Prelude/Int.antt =====
-- Signed integers over the native numbers, and the two's complement of machine words.
use Prim.Native.Nat.{ℕ, ◌-◌, ◌%◌, ◌^◌}
use cpp_toolkit.Prelude.Tests.{ltb, if◌then◌else◌}

-- `negsuc n` is -(n + 1).
pub data ℤ : Type 0 where
  pos : ℕ → ℤ
  negsuc : ℕ → ℤ

-- The value of an unsigned type of w bits that an integer is converted to.
abbrev pub to_unsigned : ℕ → ℤ → ℕ
to_unsigned w (pos n) = n % 2 ^ w
to_unsigned w (negsuc n) = 2 ^ w - 1 - n % 2 ^ w

-- The integer that a word of w bits stands for in a signed type.
abbrev pub to_signed : ℕ → ℕ → ℤ
to_signed w b = if ltb b (2 ^ (w - 1)) then pos b else negsuc (2 ^ w - 1 - b)
