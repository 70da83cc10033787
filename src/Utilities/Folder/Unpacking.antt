-- ===== src/Utilities/Folder/Unpacking.antt =====
-- decompression: on the archives that compression writes, and on any bytes.
use cpp_toolkit.Prelude.{
  ℕ, zero, suc, ◌^◌, ◌+◌, ◌<◌, ◌≤◌, ◌≡◌, ◌≢◌, refl, sym, ap, ◌∙◌, arith, Bool, true, false, Option,
  none, some, List, [], ◌∷◌, ◌++◌, if◌then◌else◌, bytes_eq, length, All, map, length-append,
  is_empty, Bool-cases, inl, inr, nat_eq,
}
use mathlib.Core.List.{append-nil, append_assoc}
use cpp_toolkit.Prelude.Map.{find, find-assign_same, assign}
use cpp_toolkit.Utilities.Combiner.{divide}
use cpp_toolkit.Utilities.Combiner.Fields.{field, length-field, divide-field}
use cpp_toolkit.Utilities.Combiner.Bounds.{IsWithin, divide-IsWithin}
use cpp_toolkit.Utilities.Converter.{to_string, has_bom}
use cpp_toolkit.Utilities.File.{Disk, Text, Outcome}
use cpp_toolkit.Utilities.File.Bytes.{
  Fits, open-truncating, open-reading, read-opened, write_bytes-opened,
}
use cpp_toolkit.Utilities.Folder.{
  Paths, Ending, decompression, unpack_read, pack, returned, undefined, out_of_fuel, parse_entry,
  unpack_entry, unpack, unpack_round,
}
use cpp_toolkit.Utilities.Folder.Packing.{
  Entry, Item, IsPackable, entry_data, archive, pack-archive,
}

parse_entry-entry_data :
    (name : Text) (content : List ℕ)
    → has_bom name ≡ false
    → length (entry_data (name, content)) < 2 ^ 63
    → parse_entry (entry_data (name, content)) ≡ some (name, content)
unfolding parse_entry to_string
parse_entry-entry_data name content no_bom small =
    let data' = entry_data (name, content) in
    let first : divide data' 0 ≡ some (name, 8 + length name) =
      divide-field [] name (field content)
        (omega (arith, length-append (field name) (field content), length-field name)) in
    let second : divide data' (8 + length name)
        ≡ some (content, length (field name) + 8 + length content) =
      rw (← length-field name) (
        ap (λ x. divide (field name ++ x) (length (field name))) (sym (append-nil (field content)))
        ∙ divide-field (field name) content []
            (omega (arith, length-append (field name) (field content), length-field content))) in
    rw (parse_entry, first, second, to_string, no_bom) refl

divide_end : (w : List ℕ) → length w + 8 < 2 ^ 64 → divide w (length w) ≡ some ([], length w)
unfolding divide
divide_end w h = ground arith

-- What every entry of the archive has.
pub record IsUnpackable (paths : Paths) (permits : Text → Bool) (target : Text) (e : Entry)
    : Type 0 where
  pub no_mark : has_bom e.0 ≡ false
  pub permitted : permits (paths.append target e.0) ≡ true
  pub small : length (entry_data e) < 2 ^ 32

-- The disk with the content of each entry at its path, the later ones over the earlier.
abbrev pub placed : Paths → Text → List Entry → Disk → Disk
placed paths target [] disk = disk
placed paths target ((name, content) ∷ es) disk =
    placed paths target es (assign (paths.append target name) content disk)

entry_full : (e : Entry) → is_empty (entry_data e) ≡ false
entry_full (name, content) =
    full (entry_data (name, content))
      (omega (arith, length-append (field name) (field content), length-field name))
  where
    full : (w : List ℕ) → 8 ≤ length w → is_empty w ≡ false
    full [] h = absurd (omega arith)
    full (x ∷ w) h = refl

module _ (paths : Paths) (permits : Text → Bool) (target : Text) where
  unpack_entry-assign :
      (e : Entry) (disk : Disk)
      → IsUnpackable paths permits target e
      → unpack_entry paths permits target (entry_data e) disk
        ≡ some (assign (paths.append target e.0) e.1 disk, (true, none))
  unfolding unpack_entry
  unpack_entry-assign (name, content) disk h =
      let path = paths.append target name in
      let small : length (entry_data (name, content)) < 2 ^ 32 = h.small in
      let fits : Fits content =
        omega (arith, small, length-append (field name) (field content), length-field content) in
      rw
        (
          unpack_entry,
          parse_entry-entry_data name content (h.no_mark) (omega arith),
          open-truncating permits path disk (h.permitted),
          write_bytes-opened path content [] disk fits,
        )
        refl

  round_goes_on :
      (parsed_data : List ℕ) (index : ℕ) (disk disk' : Disk) (next : ℕ → Disk → Ending)
      → is_empty parsed_data ≡ false
      → unpack_entry paths permits target parsed_data disk ≡ some (disk', (true, none))
      → unpack_round paths permits target disk next (some (parsed_data, index)) ≡ next index disk'
  unfolding unpack_round
  round_goes_on parsed_data index disk disk' next full e = rw (unpack_round, full, e) refl

  unpack-archive :
      (fuel : ℕ) (front : List ℕ) (es : List Entry) (disk : Disk)
      → All (IsUnpackable paths permits target) es
      → length es < fuel
      → length front + length (archive es) + 8 < 2 ^ 64
      → unpack fuel paths permits target (front ++ archive es) (length front) disk
        ≡ returned (placed paths target es disk) (true, none)
  unfolding unpack unpack_round
  unpack-archive zero front es disk h enough small = absurd (omega arith)
  unpack-archive (suc fuel) front [] disk h enough small =
      let next = unpack fuel paths permits target (front ++ []) in
      ap (unpack_round paths permits target disk next)
        (ap (λ w. divide w (length front)) (append-nil front) ∙ divide_end front (omega arith))
  unpack-archive (suc fuel) front (e ∷ es) disk (h, hs) enough small =
      let bytes = entry_data e in
      let disk' = assign (paths.append target e.0) e.1 disk in
      let next = unpack fuel paths permits target (front ++ archive (e ∷ es)) in
      let one = length-field bytes in
      let reach = length-append (field bytes) (archive es) in
      let index : length (front ++ field bytes) ≡ length front + 8 + length bytes =
        omega (arith, one, length-append front (field bytes)) in
      ap (unpack_round paths permits target disk next)
        (divide-field front bytes (archive es) (omega (arith, one, reach)))
      ∙ round_goes_on bytes (length front + 8 + length bytes) disk disk' next (entry_full e)
          (unpack_entry-assign e disk h)
      ∙ ap (λ w. unpack fuel paths permits target w (length front + 8 + length bytes) disk')
          (sym (append_assoc front (field bytes) (archive es)))
      ∙ ap (λ i. unpack fuel paths permits target (front ++ field bytes ++ archive es) i disk')
          (sym index)
      ∙ unpack-archive fuel (front ++ field bytes) es disk' hs (omega arith)
          (omega (arith, index, one, reach))

  entry_ends :
      (r : Option (Disk × Outcome)) (next : Disk → Ending)
      → ((disk : Disk) → next disk ≢ out_of_fuel)
      → elim r [
        | none ↦ undefined
        | some (disk, outcome) ↦ if outcome.0 then next disk else returned disk outcome
      ]
        ≢ out_of_fuel
  entry_ends none next h = ground arith
  entry_ends (some (disk, (true, message))) next h = h disk
  entry_ends (some (disk, (false, message))) next h = ground arith

  -- From an index within the bytes, more rounds than bytes are left are enough.
  unpack_ends :
      (fuel : ℕ) (w : List ℕ) (index : ℕ) (disk : Disk)
      → index ≤ length w
      → length w < 2 ^ 63
      → length w < fuel + index
      → unpack fuel paths permits target w index disk ≢ out_of_fuel
  unfolding unpack unpack_round
  unpack_ends zero w index disk hi hw enough = absurd (omega arith)
  unpack_ends (suc fuel) w index disk hi hw enough =
      go (divide w index) (divide-IsWithin w index hi hw)
        (λ j disk' hj. unpack_ends fuel w j disk' (hj.1) hw (omega (arith, hj.0)))
    where
      go :
          (r : Option (List ℕ × ℕ))
          → IsWithin w index r
          → ((j : ℕ) (disk' : Disk)
              → (index < j) × (j ≤ length w)
              → unpack fuel paths permits target w j disk' ≢ out_of_fuel)
          → unpack_round paths permits target disk (unpack fuel paths permits target w) r
            ≢ out_of_fuel
      go none h next = ground arith
      go (some (parsed_data, j)) (h, k, full) next = elim (Bool-cases (is_empty parsed_data)) [
        | inl empty ↦ rw empty (ground arith)
        | inr there ↦ rw there (
            entry_ends (unpack_entry paths permits target parsed_data disk)
              (unpack fuel paths permits target w j) (λ disk'. next j disk' (full there, k)))
      ]

decompression-unpack :
    (paths : Paths) (permits : Text → Bool) (target source : Text) (disk : Disk) (bytes : List ℕ)
    → permits source ≡ true
    → find source disk ≡ some bytes
    → decompression paths permits target source disk
      ≡ unpack (suc (length bytes)) paths permits target bytes 0 disk
unfolding decompression unpack_read
decompression-unpack paths permits target source disk bytes h e =
    rw (decompression, open-reading permits source disk bytes h e)
      (ap (unpack_read paths permits target disk) (read-opened source disk bytes e))

length-archive : (es : List Entry) → length es ≤ length (archive es)
length-archive [] = omega arith
length-archive (e ∷ es) = omega (
  arith,
  length-archive es,
  length-append (field (entry_data e)) (archive es),
  length-field (entry_data e),
)

-- decompression of any file ends: the loop comes to its end, returns an error, or reads outside of its
-- array, where the file has fewer than 2 ^ 63 bytes.
pub decompression_ends :
    (paths : Paths) (permits : Text → Bool) (target source : Text) (disk : Disk) (bytes : List ℕ)
    → permits source ≡ true
    → find source disk ≡ some bytes
    → length bytes < 2 ^ 63
    → decompression paths permits target source disk ≢ out_of_fuel
decompression_ends paths permits target source disk bytes permitted e small h =
    unpack_ends paths permits target (suc (length bytes)) bytes 0 disk (omega arith) small
      (omega arith)
      (sym (decompression-unpack paths permits target source disk bytes permitted e) ∙ h)

-- compression packs all the files that were found, in their order, and decompression of its archive
-- puts the content of each at its name under the target, the later over the earlier, and both say success:
-- where the system permits all paths, no file that was found is the archive, no name starts with a byte
-- order mark, and an entry has fewer than 2 ^ 32 bytes and the archive fewer than 2 ^ 63.
pub decompression-pack :
    (paths : Paths) (permits : Text → Bool) (target base archive_path : Text) (disk : Disk)
    (items : List Item)
    → permits archive_path ≡ true
    → All (IsPackable paths permits archive_path base disk) items
    → All (IsUnpackable paths permits target) (map (λ item. item.1) items)
    → length (archive (map (λ item. item.1) items)) < 2 ^ 63
    → let (disk', outcome) =
        pack paths permits archive_path base (map (λ item. item.0) items) disk in
      (outcome ≡ (true, none))
      × (decompression paths permits target archive_path disk'
          ≡ returned (placed paths target (map (λ item. item.1) items) disk') (true, none))
decompression-pack paths permits target base archive_path disk items permitted h k small =
    let es = map (λ item. item.1) items in
    let disk' = assign archive_path (archive es) disk in
    rw (pack-archive paths permits archive_path base disk items permitted h) (
      refl,
      decompression-unpack paths permits target archive_path disk' (archive es) permitted
            (find-assign_same archive_path (archive es) disk)
          ∙ unpack-archive paths permits target (suc (length (archive es))) [] es disk' k
              (omega (arith, length-archive es)) (omega arith),
    )
