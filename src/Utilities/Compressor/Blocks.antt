-- ===== src/Utilities/Compressor/Blocks.antt =====
-- decompression takes compression back, where LZ4 does so block by block.
use mathlib.Core.List.{append-nil, append_assoc}
use cpp_toolkit.Prelude.{
  ℕ, zero, suc, ◌+◌, ◌^◌, ◌<◌, ◌≤◌, ◌≡◌, refl, sym, ap, ◌∙◌, arith, true, false, ◌||◌, some, List,
  [], codes, ◌∷◌, ◌++◌, length, is_empty, take, drop, leb, ltb, take-append, drop-append,
  length-append, take-append-drop, length-take, length-drop, min,
}
use cpp_toolkit.Prelude.Bytes.{le_bytes, le_value, length-le_bytes, le_value-le_bytes}
use cpp_toolkit.Utilities.Compressor.{
  Lz4, is_positive, frame, piece, next_code, next_block, finished, compress_blocks, compression,
  with_found, decompress_blocks, decompression,
}

-- Four bytes of a size and what is behind them.
header :
    (n : ℕ) (rest : List ℕ)
    → n < 2 ^ 31
    → (le_value (take 4 (le_bytes 4 n ++ rest)) ≡ n) × (drop 4 (le_bytes 4 n ++ rest) ≡ rest)
header n rest h =
    let four = sym (length-le_bytes 4 n) in
    (
      ap le_value (take-append 4 (le_bytes 4 n) rest four) ∙ le_value-le_bytes 4 n (omega arith),
      drop-append 4 (le_bytes 4 n) rest four,
    )

length-header : (n : ℕ) (rest : List ℕ) → length (le_bytes 4 n ++ rest) ≡ 4 + length rest
length-header n rest = omega (arith, length-append (le_bytes 4 n) rest, length-le_bytes 4 n)

next_code-header :
    (bound : ℕ) (coded more : List ℕ)
    → 0 < length coded
    → length coded < 2 ^ 31
    → length coded ≤ bound
    → next_code bound (le_bytes 4 (length coded) ++ (coded ++ more)) ≡ piece coded more
unfolding next_code
next_code-header bound coded more some_bytes small fits =
    let n = length coded in
    let (size, behind) = header n (coded ++ more) small in
    let long = length-header n (coded ++ more) in
    let enough : ltb (length (le_bytes 4 n ++ (coded ++ more))) 4 ≡ false = ground (arith, long) in
    let positive : is_positive n ≡ true = ground arith in
    let inside : (ltb (length (coded ++ more)) n || ltb bound n) ≡ false =
      ground (arith, length-append coded more) in
    rw
      (
        next_code,
        size,
        enough,
        positive,
        behind,
        inside,
        take-append n coded more refl,
        drop-append n coded more refl,
      )
      refl

full_header : (n : ℕ) (rest : List ℕ) → is_empty (le_bytes 4 n ++ rest) ≡ false
full_header n rest = full (le_bytes 4 n ++ rest) (omega (arith, length-header n rest))
  where
    full : (w : List ℕ) → 4 ≤ length w → is_empty w ≡ false
    full [] h = absurd (omega arith)
    full (x ∷ w) h = refl

-- A round of decompression finds the code that a round of compression has appended.
next_block-frame :
    (bound : ℕ) (block coded more : List ℕ)
    → 0 < length block
    → length block < 2 ^ 31
    → 0 < length coded
    → length coded < 2 ^ 31
    → length coded ≤ bound
    → next_block bound (frame block coded ++ more) ≡ piece coded more
unfolding next_block frame
next_block-frame bound block coded more b small_b c small_c fits =
    let n = length block in
    let behind = le_bytes 4 (length coded) ++ (coded ++ more) in
    let shape : frame block coded ++ more ≡ le_bytes 4 n ++ behind =
      append_assoc (le_bytes 4 n) (le_bytes 4 (length coded) ++ coded) more
      ∙ ap (λ x. le_bytes 4 n ++ x) (append_assoc (le_bytes 4 (length coded)) coded more) in
    let (size, after) = header n behind small_b in
    let enough : ltb (length (le_bytes 4 n ++ behind)) 4 ≡ false =
      ground (arith, length-header n behind) in
    let positive : is_positive n ≡ true = ground arith in
    ap (next_block bound) shape
    ∙ rw (next_block, full_header n behind, enough, size, positive, after)
        (next_code-header bound coded more c small_c fits)

length-frame : (block coded : List ℕ) → 8 ≤ length (frame block coded)
unfolding frame
length-frame block coded = omega (
  arith,
  length-header (length block) (le_bytes 4 (length coded) ++ coded),
  length-header (length coded) coded,
)

module _ {ℓ κ} {C : Type ℓ} {D : Type κ} (lz4 : Lz4 C D) (Paired : C → D → Type 0)
    (block_bytes : ℕ) where
  -- What LZ4 promises of streams that have come the same way: the code of a block fits, and it is
  -- decompressed to the block.
  abbrev pub TakesBack : Type (ℓ ⊔ κ)
  TakesBack =
      (c : C) (d : D) (block : List ℕ)
      → Paired c d
      → 0 < length block
      → length block ≤ block_bytes
      → let (c', coded) = lz4.compress c block in
        (0 < length coded)
        × (length coded < 2 ^ 31)
        × (length coded ≤ lz4.bound)
        × ((lz4.decompress d coded).1 ≡ block)
        × Paired c' (lz4.decompress d coded).0

  full_length : (w : List ℕ) → 0 < length w → is_empty w ≡ false
  full_length [] h = absurd (omega arith)
  full_length (x ∷ w) h = refl

  take_nil : (n : ℕ) → take {A = ℕ} n [] ≡ []
  take_nil zero = refl
  take_nil (suc n) = refl

  blocks_nil : (fuel : ℕ) (c : C) → compress_blocks lz4 (suc fuel) block_bytes c [] ≡ []
  unfolding compress_blocks
  blocks_nil fuel c = rw (compress_blocks, take_nil block_bytes) refl

  blocks_more :
      (fuel : ℕ) (c : C) (rest : List ℕ)
      → let block = take block_bytes rest in
        let (c', coded) = lz4.compress c block in
        is_empty block ≡ false
        → is_empty coded ≡ false
        → compress_blocks lz4 (suc fuel) block_bytes c rest
          ≡ frame block coded ++ compress_blocks lz4 fuel block_bytes c' (drop block_bytes rest)
  unfolding compress_blocks
  blocks_more fuel c rest some_block some_code = rw (compress_blocks, some_block, some_code) refl

  unblocks_frame :
      (fuel : ℕ) (d : D) (block coded more decompressed : List ℕ)
      → 0 < length block
      → length block < 2 ^ 31
      → 0 < length coded
      → length coded < 2 ^ 31
      → length coded ≤ lz4.bound
      → (lz4.decompress d coded).1 ≡ block
      → decompress_blocks lz4 (suc fuel) d (frame block coded ++ more) decompressed
        ≡ decompress_blocks lz4 fuel (lz4.decompress d coded).0 more (decompressed ++ block)
  unfolding decompress_blocks next_block
  unblocks_frame fuel d block coded more decompressed b small_b k small_k fits e =
      ap (with_found lz4 d decompressed (decompress_blocks lz4 fuel))
        (next_block-frame lz4.bound block coded more b small_b k small_k fits)
      ∙ rw (e, full_length block b) refl

  unblocks_nil :
      (fuel : ℕ) (d : D) (decompressed : List ℕ)
      → decompress_blocks lz4 (suc fuel) d [] decompressed ≡ finished decompressed
  unfolding decompress_blocks next_block
  unblocks_nil fuel d decompressed = refl

  blocks_back :
      (fuel fuel' : ℕ) (c : C) (d : D) (rest decompressed : List ℕ)
      → TakesBack
      → Paired c d
      → 0 < block_bytes
      → block_bytes < 2 ^ 16
      → length rest < fuel
      → length (compress_blocks lz4 fuel block_bytes c rest) < fuel'
      → decompress_blocks lz4 fuel' d (compress_blocks lz4 fuel block_bytes c rest) decompressed
        ≡ finished (decompressed ++ rest)
  blocks_back zero fuel' c d rest decompressed t p b small f f' = absurd (omega arith)
  blocks_back fuel zero c d rest decompressed t p b small f f' = absurd (omega arith)
  blocks_back (suc fuel) (suc fuel') c d [] decompressed t p b small f f' =
      ap (λ w. decompress_blocks lz4 (suc fuel') d w decompressed) (blocks_nil fuel c)
      ∙ unblocks_nil fuel' d decompressed
      ∙ ap finished (sym (append-nil decompressed))
  blocks_back (suc fuel) (suc fuel') c d (x ∷ rest) decompressed t p b small f f' =
      let data_left = x ∷ rest in
      let block = take block_bytes data_left in
      let size : length block ≡ min block_bytes (length data_left) =
        length-take block_bytes data_left in
      let coded = (lz4.compress c block).1 in
      let (k, small_k, fits, e, p') = t c d block p (omega (arith, size)) (omega (arith, size)) in
      let more =
        compress_blocks lz4 fuel block_bytes (lz4.compress c block).0
          (drop block_bytes data_left) in
      let shape =
        blocks_more fuel c data_left (full_length block (omega (arith, size)))
          (full_length coded k) in
      let shorter : length more < fuel' = omega (
        arith,
        ap length shape,
        length-append (frame block coded) more,
        length-frame block coded,
        f',
      ) in
      ap (λ w. decompress_blocks lz4 (suc fuel') d w decompressed) shape
      ∙ unblocks_frame fuel' d block coded more decompressed (omega (arith, size))
          (omega (arith, size)) k small_k fits e
      ∙ blocks_back fuel fuel' (lz4.compress c block).0 (lz4.decompress d coded).0
          (drop block_bytes data_left) (decompressed ++ block) t p' b small
          (omega (arith, length-drop block_bytes data_left)) shorter
      ∙ ap finished (
          append_assoc decompressed block (drop block_bytes data_left)
          ∙ ap (λ w. decompressed ++ w) (take-append-drop block_bytes data_left))

  blocks_some :
      (fuel : ℕ) (c : C) (d : D) (x : ℕ) (rest : List ℕ)
      → TakesBack
      → Paired c d
      → 0 < block_bytes
      → is_empty (compress_blocks lz4 (suc fuel) block_bytes c (x ∷ rest)) ≡ false
  blocks_some fuel c d x rest t p b =
      let block = take block_bytes (x ∷ rest) in
      let size : length block ≡ min block_bytes (length (x ∷ rest)) =
        length-take block_bytes (x ∷ rest) in
      let (k, small_k, fits, e, q) = t c d block p (omega (arith, size)) (omega (arith, size)) in
      let coded = (lz4.compress c block).1 in
      let more =
        compress_blocks lz4 fuel block_bytes (lz4.compress c block).0
          (drop block_bytes (x ∷ rest)) in
      let shape =
        blocks_more fuel c (x ∷ rest) (full_length block (omega (arith, size)))
          (full_length coded k) in
      full_length (compress_blocks lz4 (suc fuel) block_bytes c (x ∷ rest)) (
        omega (
          arith,
          ap length shape,
          length-append (frame block coded) more,
          length-frame block coded,
        ))

  -- compression of data that are not empty gives bytes, and decompression of those gives the data, for
  -- every block size of a uint16_t but 0, where LZ4 takes back each block and the result has fewer than
  -- 2 ^ 31 bytes.
  pub decompression-compression :
      (x : ℕ) (data_left : List ℕ)
      → TakesBack
      → Paired lz4.reset lz4.fresh
      → 0 < block_bytes
      → block_bytes < 2 ^ 16
      → length
          (compress_blocks lz4 (suc (length (x ∷ data_left))) block_bytes lz4.reset (x ∷ data_left))
        < 2 ^ 31
      → (coded : List ℕ) × (compression lz4 block_bytes (x ∷ data_left)
          ≡ (some coded, codes "compressing"))
        × (decompression lz4 coded ≡ some (some (x ∷ data_left), codes "decompressing"))
  unfolding compression decompression
  decompression-compression x data_left t p b small short =
      let fuel = length (x ∷ data_left) in
      let coded = compress_blocks lz4 (suc fuel) block_bytes lz4.reset (x ∷ data_left) in
      let some_bytes = blocks_some fuel lz4.reset lz4.fresh x data_left t p b in
      let not_long : leb (2 ^ 31) (length coded) ≡ false = ground (arith, short) in
      let back =
        blocks_back (suc fuel) (suc (length coded)) lz4.reset lz4.fresh (x ∷ data_left) [] t p b
          small (omega arith) (omega arith) in
      (coded, rw some_bytes refl, rw (some_bytes, not_long, back) refl)
