-- ===== src/Utilities/Compressor.antt =====
-- Utilities/Compressor.cpp: blocks behind the sizes of the block and of its code. LZ4's streams are a
-- parameter, `Lz4`; an empty result of one stands for a size that is not positive.
pub mod Blocks
use cpp_toolkit.Prelude.{
  ℕ, zero, suc, ◌^◌, Bool, true, false, not, ◌&&◌, ◌||◌, Option, none, some, List, [], ◌∷◌, ◌++◌,
  codes, if◌then◌else◌, length, is_empty, take, drop, leb, ltb,
}
use cpp_toolkit.Prelude.Bytes.{le_bytes, le_value}
use cpp_toolkit.Utilities.File.{Text}

-- LZ4_compress_fast_continue and LZ4_decompress_safe_continue on their streams, and LZ4_COMPRESSBOUND of
-- the block size.
pub record Lz4 {ℓ κ} (C : Type ℓ) (D : Type κ) : Type (ℓ ⊔ κ) where
  pub reset : C
  pub fresh : D
  pub compress : C → List ℕ → C × List ℕ
  pub decompress : D → List ℕ → D × List ℕ
  pub bound : ℕ

-- An int32_t that is greater than 0.
abbrev pub is_positive : ℕ → Bool
is_positive n = ltb 0 n && ltb n (2 ^ 31)

-- What a round of compression appends.
unfoldable pub frame : List ℕ → List ℕ → List ℕ
frame block coded = le_bytes 4 (length block) ++ (le_bytes 4 (length coded) ++ coded)

-- What the next round of decompression finds: the end of its loop, a read or a write outside of a
-- buffer, or the code of a block and what is behind it.
pub data Found : Type 0 where
  over outside : Found
  piece : List ℕ → List ℕ → Found

unfoldable pub next_code : ℕ → List ℕ → Found
next_code bound rest =
    let size = le_value (take 4 rest) in
    if ltb (length rest) 4
    then outside
    else if not (is_positive size)
    then over
    else if ltb (length (drop 4 rest)) size || ltb bound size
    then outside
    else piece (take size (drop 4 rest)) (drop size (drop 4 rest))

unfoldable pub next_block : ℕ → List ℕ → Found
next_block bound rest =
    if is_empty rest
    then over
    else if ltb (length rest) 4
    then outside
    else if not (is_positive (le_value (take 4 rest)))
    then over
    else next_code bound (drop 4 rest)

-- How decompression's loop ends. `out_of_fuel` is of the model alone.
pub data Unpacked : Type 0 where
  finished : List ℕ → Unpacked
  undefined out_of_fuel : Unpacked

module _ {ℓ κ} {C : Type ℓ} {D : Type κ} (lz4 : Lz4 C D) where
  -- The loop of compression: the blocks of the data, `block_bytes` each.
  unfoldable pub compress_blocks : ℕ → ℕ → C → List ℕ → List ℕ
  compress_blocks zero block_bytes stream data_left = []
  compress_blocks (suc fuel) block_bytes stream data_left =
      let block = take block_bytes data_left in
      let (stream', coded) = lz4.compress stream block in
      let rest = compress_blocks fuel block_bytes stream' (drop block_bytes data_left) in
      if is_empty block || is_empty coded then [] else frame block coded ++ rest

  unfoldable pub compression : ℕ → List ℕ → Option (List ℕ) × Text
  compression block_bytes original_data =
      let compressed_data =
        compress_blocks (suc (length original_data)) block_bytes lz4.reset original_data in
      if is_empty original_data
      then (none, codes "the data field is empty.")
      else if is_empty compressed_data
      then (none, codes "cannot compress data")
      else (some compressed_data, codes "compressing")

  -- The loop of decompression, from what the next round finds; `go` is the rest of the loop.
  abbrev pub with_found : D → List ℕ → (D → List ℕ → List ℕ → Unpacked) → Found → Unpacked
  with_found stream decompressed go over = finished decompressed
  with_found stream decompressed go outside = undefined
  with_found stream decompressed go (piece coded rest) =
      let (stream', block) = lz4.decompress stream coded in
      if is_empty block then finished decompressed else go stream' rest (decompressed ++ block)

  unfoldable pub decompress_blocks : ℕ → D → List ℕ → List ℕ → Unpacked
  decompress_blocks zero stream rest decompressed = out_of_fuel
  decompress_blocks (suc fuel) stream rest decompressed =
      with_found stream decompressed (decompress_blocks fuel) (next_block lz4.bound rest)

  -- `none`: undefined behaviour. read_index is an int32_t, which longer data take past its end.
  unfoldable pub decompression : List ℕ → Option (Option (List ℕ) × Text)
  decompression compressed_data =
      if is_empty compressed_data
      then some (none, codes "the data field is empty.")
      else if leb (2 ^ 31) (length compressed_data)
      then none
      else elim (decompress_blocks (suc (length compressed_data)) lz4.fresh compressed_data []) [
        | finished bytes ↦
            if is_empty bytes
            then some (none, codes "cannot decompress data")
            else some (some bytes, codes "decompressing")
        | undefined ↦ none
        | out_of_fuel ↦ none
      ]
