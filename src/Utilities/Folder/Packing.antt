-- ===== src/Utilities/Folder/Packing.antt =====
-- The archive that compression writes.
use mathlib.Core.List.{append-nil, append_assoc}
use cpp_toolkit.Prelude.{
  ℕ, ◌^◌, ◌<◌, ◌≡◌, refl, sym, ap, ◌∙◌, arith, Bool, true, false, none, some, List, [], ◌∷◌, ◌++◌,
  ◌==◌, bytes_eq, length, All, map, reverse, length-reverse,
}
use cpp_toolkit.Prelude.Bytes.{le_bytes, length-le_bytes}
use cpp_toolkit.Prelude.Map.{find, assign, find-assign}
use cpp_toolkit.Utilities.Combiner.{append}
use cpp_toolkit.Utilities.Combiner.Fields.{field, append-field}
use cpp_toolkit.Utilities.Converter.{to_array}
use cpp_toolkit.Utilities.File.{Disk, Text, File, reading, truncating}
use cpp_toolkit.Utilities.File.Bytes.{
  opened, open-truncating, open-reading, read-opened, write_bytes-opened,
}
use cpp_toolkit.Utilities.Folder.{
  Paths, Packed, packed_data, pack_data, pack_read, pack_file, pack_files, pack,
}

-- A file as it goes into an archive: its name there and its content.
abbrev pub Entry : Type 0
Entry = Text × List ℕ

-- Two fields in one.
abbrev pub entry_data : Entry → List ℕ
entry_data (name, content) = field name ++ field content

abbrev pub archive : List Entry → List ℕ
archive [] = []
archive (e ∷ es) = field (entry_data e) ++ archive es

packed_data-entry_data :
    (name : Text) (content : List ℕ)
    → packed_data name content ≡ reverse (entry_data (name, content))
unfolding to_array
packed_data-entry_data name content =
    ap reverse
      (append-field (append [] name) content ∙ ap (λ x. x ++ field content) (append-field [] name))

-- What pack_data appends to the archive.
pack_data-opened :
    (path : Text) (e : Entry) (content : List ℕ) (disk : Disk)
    → length (entry_data e) < 2 ^ 32
    → pack_data
        (reverse (entry_data e))
        (assign path content disk)
        (opened truncating path (length content))
      ≡ (
        assign path (content ++ field (entry_data e)) disk,
        opened truncating path (length (content ++ field (entry_data e))),
        none,
      )
unfolding pack_data field
pack_data-opened path e content disk small =
    let bytes = reverse (entry_data e) in
    let header = le_bytes 8 (length bytes) in
    let first =
      write_bytes-opened path header content disk
        (omega (arith, length-le_bytes 8 (length bytes))) in
    let second =
      write_bytes-opened path bytes (content ++ header) disk
        (omega (arith, length-reverse (entry_data e))) in
    rw (pack_data, first, second, length-reverse (entry_data e))
      (ap (λ x. (assign path x disk, opened truncating path (length x), none))
        (append_assoc content (le_bytes 8 (length (entry_data e))) bytes))

-- A file that is found, and the entry that it becomes.
abbrev pub Item : Type 0
Item = Text × Entry

-- Such a file has the content of the entry, is not the archive, and is small enough for write_bytes.
pub record IsPackable (paths : Paths) (permits : Text → Bool) (target base : Text) (disk : Disk)
    (item : Item) : Type 0 where
  pub named : paths.lexically_relative item.0 base ≡ item.1.0
  pub permitted : permits item.0 ≡ true
  pub has_content : find item.0 disk ≡ some item.1.1
  pub not_archive : (target == item.0) ≡ false
  pub small : length (entry_data item.1) < 2 ^ 32

module _ (paths : Paths) (permits : Text → Bool) (target base : Text) (disk : Disk) where
  pack_opens :
      (item : Item) (packed : List ℕ) (target_file : File)
      → IsPackable paths permits target base disk item
      → pack_file paths permits base item.0 (assign target packed disk) target_file
        ≡ pack_read item.1.0
            (assign target packed disk)
            target_file
            (opened reading item.0 (length item.1.1), some item.1.1, none)
  unfolding pack_file
  pack_opens item packed target_file h =
      let disk' = assign target packed disk in
      let found : find item.0 disk' ≡ some item.1.1 =
        find-assign target item.0 packed disk ∙ rw (h.not_archive) (h.has_content) in
      rw (pack_file, open-reading permits item.0 disk' item.1.1 (h.permitted) found, h.named)
        (ap (pack_read item.1.0 disk' target_file) (read-opened item.0 disk' item.1.1 found))

  pack_reads :
      (e : Entry) (packed : List ℕ) (source : File)
      → length (entry_data e) < 2 ^ 32
      → pack_read e.0
          (assign target packed disk)
          (opened truncating target (length packed))
          (source, some e.1, none)
        ≡ (
          assign target (packed ++ field (entry_data e)) disk,
          opened truncating target (length (packed ++ field (entry_data e))),
          none,
        )
  unfolding pack_read
  pack_reads e packed source small =
      ap (λ x. pack_data x (assign target packed disk) (opened truncating target (length packed)))
        (packed_data-entry_data e.0 e.1)
      ∙ pack_data-opened target e packed disk small

  pack_file-archive :
      (item : Item) (packed : List ℕ)
      → IsPackable paths permits target base disk item
      → pack_file paths permits base item.0
          (assign target packed disk)
          (opened truncating target (length packed))
        ≡ (
          assign target (packed ++ field (entry_data item.1)) disk,
          opened truncating target (length (packed ++ field (entry_data item.1))),
          none,
        )
  pack_file-archive item packed h =
      pack_opens item packed (opened truncating target (length packed)) h
      ∙ pack_reads item.1 packed (opened reading item.0 (length item.1.1)) (h.small)

  pack_files-archive :
      (items : List Item) (packed : List ℕ)
      → All (IsPackable paths permits target base disk) items
      → pack_files paths permits base
          (map (λ item. item.0) items)
          (assign target packed disk)
          (opened truncating target (length packed))
        ≡ (
          assign target (packed ++ archive (map (λ item. item.1) items)) disk,
          opened truncating target (length (packed ++ archive (map (λ item. item.1) items))),
          none,
        )
  unfolding pack_files
  pack_files-archive [] packed h =
      ap (λ x. (assign target x disk, opened truncating target (length x), none))
        (sym (append-nil packed))
  pack_files-archive (item ∷ items) packed (h, hs) =
      let more = packed ++ field (entry_data item.1) in
      let files = map (λ x. x.0) items in
      let next : Packed → Packed = λ p. elim p.2 [
        | none ↦ pack_files paths permits base files p.0 p.1
        | some failed ↦ (p.0, p.1, some failed)
      ] in
      ap next (pack_file-archive item packed h)
      ∙ pack_files-archive items more hs
      ∙ ap (λ x. (assign target x disk, opened truncating target (length x), none))
          (append_assoc packed (field (entry_data item.1)) (archive (map (λ item. item.1) items)))

  -- What compression leaves on the disk: the archive of all files that were found, in their order.
  pub pack-archive :
      (items : List Item)
      → permits target ≡ true
      → All (IsPackable paths permits target base disk) items
      → pack paths permits target base (map (λ item. item.0) items) disk
        ≡ (assign target (archive (map (λ item. item.1) items)) disk, (true, none))
  unfolding pack
  pack-archive items permitted h =
      rw (pack, open-truncating permits target disk permitted, pack_files-archive items [] h) refl
