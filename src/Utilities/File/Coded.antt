-- ===== src/Utilities/File/Coded.antt =====
-- File::compression and File::decompression of one file after the other.
use cpp_toolkit.Prelude.{
  ℕ, ◌≡◌, refl, ap, ◌∙◌, Bool, true, Option, none, some, List, [], bytes_eq, length,
}
use cpp_toolkit.Prelude.Map.{find, assign, find-assign_same, assign-assign, assign_found}
use cpp_toolkit.Utilities.File.{
  Disk, Text, reading, read_bytes, close, recode, recode_read, replace_content,
}
use cpp_toolkit.Utilities.File.Bytes.{
  Fits, closed, opened, open-reading, open-truncating, read-opened, close-opened,
  write_bytes-opened,
}

replace-assign :
    (permits : Text → Bool) (path : Text) (disk : Disk) (coded : List ℕ)
    → permits path ≡ true
    → Fits coded
    → replace_content permits path coded disk closed ≡ (assign path coded disk, (true, none))
unfolding replace_content
replace-assign permits path disk coded h small =
    rw
      (
        replace_content,
        open-truncating permits path disk h,
        write_bytes-opened path coded [] disk small,
      )
      refl

module _ (code : List ℕ → Option (List ℕ) × Text) (permits : Text → Bool) (path : Text)
    (disk : Disk) (bytes coded : List ℕ) where
  recode_opens :
      permits path ≡ true
      → find path disk ≡ some bytes
      → recode code permits path disk
        ≡ recode_read code permits path disk (read_bytes disk (opened reading path 0))
  unfolding recode
  recode_opens h e = rw (recode, open-reading permits path disk bytes h e) refl

  recode_codes :
      (code bytes).0 ≡ some coded
      → recode_read code permits path disk (opened reading path (length bytes), some bytes, none)
        ≡ replace_content permits path coded disk (close (opened reading path (length bytes)))
  unfolding recode_read
  recode_codes c = rw (recode_read, c) refl

  -- What recode comes to on a file whose bytes can be coded.
  recode-assign :
      permits path ≡ true
      → find path disk ≡ some bytes
      → (code bytes).0 ≡ some coded
      → Fits coded
      → recode code permits path disk ≡ (assign path coded disk, (true, none))
  recode-assign h e c small =
      recode_opens h e
      ∙ ap (recode_read code permits path disk) (read-opened path disk bytes e)
      ∙ recode_codes c
      ∙ ap (replace_content permits path coded disk) (close-opened reading path (length bytes))
      ∙ replace-assign permits path disk coded h small

-- compression of a file that the system permits, and decompression after it, say success both and leave
-- the disk as it was, where the file holds bytes that the codec takes back and neither they nor their
-- code have 2 ^ 32 bytes or more.
pub recode-recode :
    (code decode : List ℕ → Option (List ℕ) × Text) (permits : Text → Bool) (path : Text)
    (disk : Disk) (bytes coded : List ℕ)
    → permits path ≡ true
    → find path disk ≡ some bytes
    → (code bytes).0 ≡ some coded
    → (decode coded).0 ≡ some bytes
    → Fits coded
    → Fits bytes
    → let (disk', outcome) = recode code permits path disk in
      (outcome ≡ (true, none)) × (recode decode permits path disk' ≡ (disk, (true, none)))
recode-recode code decode permits path disk bytes coded h e c d small small' =
    rw (recode-assign code permits path disk bytes coded h e c small) (
      refl,
      recode-assign decode permits path (assign path coded disk) coded bytes h
            (find-assign_same path coded disk) d small'
          ∙ ap (λ x. (x, (true, none)))
              (assign-assign path bytes coded disk ∙ assign_found path bytes disk e),
    )
