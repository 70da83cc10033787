-- ===== src/Utilities/ArgumentParser/Numbers.antt =====
-- Printed integers and the number getters.
use native.Mathlib.Nat.{pow-suc, mul_assoc}
use mathlib.Core.List.{append-nil, append_assoc}
use cpp_toolkit.Prelude.{
  ℕ, zero, suc, ◌+◌, ◌*◌, ◌/◌, ◌%◌, ◌^◌, ◌<◌, ◌≤◌, ◌≡◌, sym, refl, ◌∙◌, ap, arith, true, Option,
  some, [], ◌∷◌, ◌++◌, bytes_eq,
}
use cpp_toolkit.Prelude.Map.{find}
use cpp_toolkit.Prelude.Int.{ℤ, pos, negsuc, to_unsigned, to_signed}
use cpp_toolkit.Utilities.ArgumentParser.{
  Text, ArgumentParser, is_space, drop_while, digits_value, sign_and_digits, fits, ascii_to,
  to_string, read_number, to_int, to_short, to_long,
}

-- The k decimal digits of n, with zeros in front.
unfoldable pub decimal : ℕ → ℕ → Text
decimal zero n = []
decimal (suc k) n = decimal k (n / 10) ++ ((48 + n % 10) ∷ [])

abbrev pub magnitude : ℤ → ℕ
magnitude (pos n) = n
magnitude (negsuc n) = suc n

abbrev pub printed : ℕ → ℤ → Text
printed k (pos n) = decimal k n
printed k (negsuc n) = 45 ∷ decimal k (suc n)

digit_round :
    (m c : ℕ) (rest : Text)
    → c < 10
    → digits_value m ((48 + c) ∷ rest) ≡ digits_value (m * 10 + c) rest
unfolding digits_value
digit_round m c rest h = ground arith

shift_digit : (m p n : ℕ) → (m * p + n / 10) * 10 + n % 10 ≡ m * (p * 10) + n
shift_digit m p n = omega (arith, mul_assoc m p 10)

next_power : (k : ℕ) → 10 ^ suc k ≡ 10 ^ k * 10
next_power k = omega (arith, pow-suc 10 k)

digits_value-decimal :
    (k m n : ℕ) (rest : Text)
    → n < 10 ^ k
    → digits_value m (decimal k n ++ rest) ≡ digits_value (m * 10 ^ k + n) rest
unfolding decimal
digits_value-decimal zero m n rest h = ap (λ v. digits_value v rest) (omega arith)
digits_value-decimal (suc k) m n rest h = rw append_assoc (
    digits_value-decimal k m (n / 10) ((48 + n % 10) ∷ rest) (omega (arith, pow-suc 10 k))
    ∙ digit_round (m * 10 ^ k + n / 10) (n % 10) rest (omega arith)
    ∙ ap (λ v. digits_value v rest)
        (shift_digit m (10 ^ k) n ∙ ap (λ p. m * p + n) (sym (next_power k))))

pub digits_value-printed : (k n : ℕ) → n < 10 ^ k → digits_value 0 (decimal k n) ≡ n
unfolding digits_value
digits_value-printed k n h =
    ap (digits_value 0) (sym (append-nil (decimal k n)))
    ∙ digits_value-decimal k 0 n [] h
    ∙ omega arith

abbrev FirstDigit : Text → Type 0
FirstDigit [] = ⊥
FirstDigit (c ∷ cs) = (48 ≤ c) × (c ≤ 57)

append-FirstDigit : (xs ys : Text) → FirstDigit xs → FirstDigit (xs ++ ys)
append-FirstDigit [] ys h = absurd h
append-FirstDigit (x ∷ xs) ys h = h

decimal-FirstDigit : (k n : ℕ) → FirstDigit (decimal (suc k) n)
unfolding decimal
decimal-FirstDigit zero n = omega arith
decimal-FirstDigit (suc k) n =
    append-FirstDigit (decimal (suc k) (n / 10)) _ (decimal-FirstDigit k (n / 10))

unsigned :
    (text : Text)
    → FirstDigit text
    → sign_and_digits (drop_while is_space text) ≡ pos (digits_value 0 text)
unfolding drop_while
unsigned [] h = absurd h
unsigned (c ∷ cs) h = ground arith

-- What atoi and atol read of a printed integer.
ascii_to-printed :
    (w k : ℕ) (z : ℤ)
    → magnitude z < 10 ^ suc k
    → fits w z ≡ true
    → ascii_to w (printed (suc k) z) ≡ some z
unfolding ascii_to drop_while
ascii_to-printed w k (pos n) h e =
    rw (unsigned (decimal (suc k) n) (decimal-FirstDigit k n), digits_value-printed (suc k) n h, e)
      refl
ascii_to-printed w k (negsuc n) h e = rw (digits_value-printed (suc k) (suc n) h, e) refl

fits_more : (z : ℤ) → fits 32 z ≡ true → fits 64 z ≡ true
fits_more (pos n) h = ground arith
fits_more (negsuc n) h = ground arith

-- A getter, by what atoi or atol gives for its value.
read_found {ℓ} :
    {A : Type ℓ} (w : ℕ) (cast : ℤ → A) (target : Option Text) (text : Text) (z : ℤ)
    → target ≡ some text
    → ascii_to w text ≡ some z
    → read_number w cast target ≡ some (some (cast z))
read_found w cast target text z found e = rw found (rw e refl)

-- A value that is an integer of 32 bits, printed with any number of leading zeros and a sign if it is
-- negative, is what to_int and to_long give.
pub to_int-printed :
    (k : ℕ) (z : ℤ) (key : Text) (parser : ArgumentParser)
    → find key parser.arguments ≡ some (printed (suc k) z)
    → magnitude z < 10 ^ suc k
    → fits 32 z ≡ true
    → (to_int key parser ≡ some (some z)) × (to_long key parser ≡ some (some z))
unfolding to_int to_long to_string
to_int-printed k z key parser found h e = (
  read_found 32 (λ value. value) (to_string key parser) (printed (suc k) z) z found
      (ascii_to-printed 32 k z h e),
  read_found 64 (λ value. value) (to_string key parser) (printed (suc k) z) z found
      (ascii_to-printed 64 k z h (fits_more z e)),
)

wrap_short : (z : ℤ) → fits 16 z ≡ true → to_signed 16 (to_unsigned 16 z) ≡ z
wrap_short (pos n) h = ground arith
wrap_short (negsuc n) h = ground arith

fits_short : (z : ℤ) → fits 16 z ≡ true → fits 32 z ≡ true
fits_short (pos n) h = ground arith
fits_short (negsuc n) h = ground arith

-- to_short gives back the integers of 16 bits.
to_short-printed :
    (k : ℕ) (z : ℤ) (key : Text) (parser : ArgumentParser)
    → find key parser.arguments ≡ some (printed (suc k) z)
    → magnitude z < 10 ^ suc k
    → fits 16 z ≡ true
    → to_short key parser ≡ some (some z)
unfolding to_short to_string
to_short-printed k z key parser found h e =
    read_found 32 (λ value. to_signed 16 (to_unsigned 16 value)) (to_string key parser)
      (printed (suc k) z) z found (ascii_to-printed 32 k z h (fits_short z e))
    ∙ ap (λ value. some (some value)) (wrap_short z e)
