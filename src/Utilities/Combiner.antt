-- ===== src/Utilities/Combiner.antt =====
-- Utilities/Combiner.cpp: fields behind an eight byte length, their bytes in reverse order.
pub mod Fields
pub mod Bounds
use cpp_toolkit.Prelude.{
  ℕ, ◌+◌, ◌%◌, ◌^◌, Bool, ◌||◌, Option, none, some, List, [], ◌++◌, reverse, if◌then◌else◌, leb,
  ltb, ◌==◌, nat_eq, length, is_empty, take, drop,
}
use cpp_toolkit.Prelude.Bytes.{le_bytes, le_value}

-- size_t has 64 bits, and its sums wrap.
abbrev pub size_t : ℕ → ℕ
size_t n = n % 2 ^ 64

abbrev pub size_of_size_t : ℕ
size_of_size_t = 8

unfoldable pub append : List ℕ → List ℕ → List ℕ
append result source =
    let temp = length source in
    let header = result ++ le_bytes size_of_size_t temp in
    if temp == 0 then header else header ++ reverse source

-- memcpy of a size_t out of the array. `none` is a read outside of it.
unfoldable pub size_at : List ℕ → ℕ → Option ℕ
size_at source index =
    if leb (index + size_of_size_t) (length source)
    then some (le_value (take size_of_size_t (drop index source)))
    else none

-- The bytes from `index` on, `temp` of them. `none` is a read outside of the array.
unfoldable pub slice : List ℕ → ℕ → ℕ → Option (List ℕ)
slice source index temp =
    if leb (index + temp) (length source) then some (take temp (drop index source)) else none

infixl 5 ◌>>=◌
abbrev pub ◌>>=◌ {ℓ κ} : {A : Type ℓ} {B : Type κ} → Option A → (A → Option B) → Option B
none >>= f = none
some a >>= f = f a

-- What `divide` does once the size is read: `index` stands behind it.
unfoldable pub divide_body : List ℕ → ℕ → ℕ → Option (List ℕ × ℕ)
unfolding slice
divide_body source index temp =
    if temp == 0 || ltb (length source) (size_t (index + temp))
    then some ([], index)
    else (slice source index temp >>= λ result. some (reverse result, size_t (index + temp)))

-- The field and the new value of `index`. `none` is undefined behaviour: a read outside of `source`.
unfoldable pub divide : List ℕ → ℕ → Option (List ℕ × ℕ)
unfolding size_at
divide source index =
    if is_empty source || ltb (length source) (size_t (index + size_of_size_t))
    then some ([], index)
    else (size_at source index >>= λ temp.
        divide_body source (size_t (index + size_of_size_t)) temp)
