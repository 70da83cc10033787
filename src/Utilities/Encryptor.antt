-- ===== src/Utilities/Encryptor.antt =====
-- Utilities/Encryptor.cpp, with to_base64 and from_base64 of Converter.cpp. Crypto++ is a parameter: its
-- base64 filters, and AES in CBC mode, which may throw. The random blocks of create_key are arguments.
use cpp_toolkit.Prelude.{
  ℕ, zero, suc, ◌+◌, ◌-◌, ◌≤◌, ◌≡◌, ap, arith, false, ◌||◌, Option, none, some, List, [], ◌∷◌, ◌++◌,
  codes, if◌then◌else◌, is_empty, length, take, take_all,
}
use mathlib.Core.List.{append-nil}
use cpp_toolkit.Utilities.Combiner.{◌>>=◌}

-- `none` is an exception.
pub record Crypto : Type 0 where
  pub encode64 : List ℕ → List ℕ
  pub decode64 : List ℕ → List ℕ
  pub encrypt : List ℕ → List ℕ → List ℕ → Option (List ℕ)
  pub decrypt : List ℕ → List ℕ → List ℕ → Option (List ℕ)

abbrev pub block_size : ℕ
block_size = 16

abbrev pub Coded : Type 0
Coded = Option (List ℕ) × Option (List ℕ)

abbrev zeros : ℕ → List ℕ
zeros zero = []
zeros (suc n) = 0 ∷ zeros n

-- What an ArraySink of a capacity leaves in its vector, which is resized to all that was put.
unfoldable pub sink : ℕ → List ℕ → List ℕ
sink capacity out = take capacity out ++ zeros (length out - capacity)

module _ (lib : Crypto) where
  unfoldable pub to_base64 : List ℕ → List ℕ
  to_base64 value = if is_empty value then [] else lib.encode64 value

  unfoldable pub from_base64 : List ℕ → List ℕ
  from_base64 value = if is_empty value then [] else lib.decode64 value

  unfoldable pub create_key : List ℕ → List ℕ → List ℕ × List ℕ
  unfolding to_base64
  create_key key iv = (to_base64 key, to_base64 iv)

  -- What encryption and decryption test first.
  abbrev checked : List ℕ → List ℕ → List ℕ → List ℕ → Option Coded → Option Coded
  checked bytes key_string iv_string missing coded =
      if is_empty bytes
      then some (none, some (codes "the data field is empty."))
      else if is_empty key_string || is_empty iv_string
      then some (none, some missing)
      else coded

  -- `none` is an exception of Crypto++.
  unfoldable pub encryption : List ℕ → List ℕ → List ℕ → Option Coded
  encryption original_data key_string iv_string =
      checked original_data key_string iv_string
        (codes "Key or IV is not provided. encryption cannot be performed.")
        (lib.encrypt (from_base64 key_string) (from_base64 iv_string) original_data
          >>= (λ out. some (some (sink (length original_data + block_size) out), none)))

  unfoldable pub decryption : List ℕ → List ℕ → List ℕ → Option Coded
  decryption encrypted_data key_string iv_string =
      checked encrypted_data key_string iv_string
        (codes "Key or IV is not provided. decryption cannot be performed.")
        (lib.decrypt (from_base64 key_string) (from_base64 iv_string) encrypted_data
          >>= (λ out. some (some (sink (length encrypted_data) out), none)))

  -- What is asked of Crypto++ for a block: base64 is read back, as text that is not empty.
  pub record ReadsBack (block : List ℕ) : Type 0 where
    pub some_bytes : is_empty block ≡ false
    pub some_text : is_empty (lib.encode64 block) ≡ false
    pub read_back : lib.decode64 (lib.encode64 block) ≡ block

  -- And for data: they are padded by a block at most, and decrypted by the same key and iv.
  pub record Padded (key iv original_data encrypted : List ℕ) : Type 0 where
    pub given : lib.encrypt key iv original_data ≡ some encrypted
    pub taken : lib.decrypt key iv encrypted ≡ some original_data
    pub some_bytes : is_empty encrypted ≡ false
    pub bounded : length encrypted ≤ length original_data + block_size
    pub grown : length original_data ≤ length encrypted

  sink_fits : (capacity : ℕ) (out : List ℕ) → length out ≤ capacity → sink capacity out ≡ out
  unfolding sink
  sink_fits capacity out h =
      rw (take_all capacity out h) (nothing_more (length out - capacity) (omega arith))
    where
      nothing_more : (n : ℕ) → n ≡ 0 → out ++ zeros n ≡ out
      nothing_more zero e = append-nil out
      nothing_more (suc n) e = absurd (omega arith)

  keys_back :
      (block : List ℕ)
      → ReadsBack block
      → (is_empty (to_base64 block) ≡ false) × (from_base64 (to_base64 block) ≡ block)
  unfolding to_base64 from_base64
  keys_back block r = (rw r.some_bytes r.some_text, rw (r.some_bytes, r.some_text) r.read_back)

  -- Data that are not empty come back from encryption and decryption with the texts of a key and an iv, as
  -- create_key makes them: where Crypto++ reads its base64 back, pads by a block at most, and decrypts
  -- what it has encrypted.
  pub decryption-encryption :
      (key iv original_data encrypted : List ℕ)
      → ReadsBack key
      → ReadsBack iv
      → is_empty original_data ≡ false
      → Padded key iv original_data encrypted
      → let (key_string, iv_string) = create_key key iv in
        (encryption original_data key_string iv_string ≡ some (some encrypted, none))
        × (decryption encrypted key_string iv_string ≡ some (some original_data, none))
  unfolding create_key encryption decryption
  decryption-encryption key iv original_data encrypted k i full p =
      let (key_text, key_same) = keys_back key k in
      let (iv_text, iv_same) = keys_back iv i in
      (
        rw (full, key_text, iv_text, key_same, iv_same, p.given)
            (ap (λ out. some (some out, none))
              (sink_fits (length original_data + block_size) encrypted p.bounded)),
        rw (p.some_bytes, key_text, iv_text, key_same, iv_same, p.taken)
            (ap (λ out. some (some out, none))
              (sink_fits (length encrypted) original_data p.grown)),
      )
