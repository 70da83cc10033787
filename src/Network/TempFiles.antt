-- ===== src/Network/TempFiles.antt =====
-- save_temp_path of Network/DataHandler.cpp over the files of Utilities/File. `temp_file_path` is the folder
-- for temporary files with the guid behind it.
use cpp_toolkit.Prelude.{
  ℕ, ◌^◌, ◌%◌, ◌≡◌, refl, ap, ◌∙◌, arith, Bool, true, false, not, ◌&&◌, Option, none, some, List,
  [], ◌∷◌, ◌++◌, if◌then◌else◌, ◌==◌, bytes_eq, length, take_all, Bool-cases, inl, inr,
}
use cpp_toolkit.Prelude.Map.{find, assign, find-assign, find-assign_same, assign-assign}
use cpp_toolkit.Utilities.File.{
  Disk, Text, File, appending, make_file, open_file, open_stream, write_bytes, put, stream_at,
  exists,
}
use cpp_toolkit.Utilities.File.Bytes.{Fits, content_of_found}
use native.Mathlib.Nat.{mod-eq_of_lt}

unfoldable pub save_temp_path : (Text → Bool) → Text → List ℕ → Disk → Disk × Option Text
save_temp_path permits temp_file_path bytes disk =
    let (opened, temp_file, open_condition) =
      open_file permits temp_file_path appending disk make_file in
    if not open_condition.0
    then (opened, none)
    else (let (written, temp_file', write_condition) = write_bytes bytes opened temp_file in
        if not write_condition.0 then (written, none) else (written, some temp_file_path))

-- The file once it is open.
abbrev begun : Text → File
begun path = record (make_file) { file_path = path; stream = some (stream_at appending path) }

open-begun :
    (permits : Text → Bool) (path : Text) (disk : Disk)
    → permits path ≡ true
    → find path disk ≡ none
    → open_file permits path appending disk make_file
      ≡ (assign path [] disk, begun path, (true, none))
unfolding open_file make_file open_stream
open-begun permits path disk permitted new = rw (open_stream, permitted, exists, new) refl

written :
    (path : Text) (bytes : List ℕ) (disk : Disk)
    → Fits bytes
    → ((write_bytes bytes (assign path [] disk) (begun path)).0 ≡ assign path bytes disk)
      × ((write_bytes bytes (assign path [] disk) (begun path)).2 ≡ (true, none))
unfolding write_bytes put make_file
written path [] disk small = (refl, refl)
written path (b ∷ bytes) disk small =
    let whole =
      take_all (length (b ∷ bytes) % 2 ^ 32) (b ∷ bytes) (omega (arith, mod-eq_of_lt small)) in
    let before = content_of_found path (assign path [] disk) [] (find-assign_same path [] disk) in
    rw (write_bytes, whole)
      (
        ap (λ content. assign path (content ++ b ∷ bytes) (assign path [] disk)) before
            ∙ assign-assign path (b ∷ bytes) [] disk,
        refl,
      )

saved_new :
    (permits : Text → Bool) (path : Text) (bytes : List ℕ) (disk : Disk)
    → permits path ≡ true
    → find path disk ≡ none
    → Fits bytes
    → save_temp_path permits path bytes disk ≡ (assign path bytes disk, some path)
unfolding save_temp_path
saved_new permits path bytes disk permitted new small =
    let (left, done) = written path bytes disk small in
    rw (save_temp_path, open-begun permits path disk permitted new, done, left) refl

not_saved :
    (permits : Text → Bool) (path : Text) (bytes : List ℕ) (disk : Disk)
    → permits path ≡ false
    → save_temp_path permits path bytes disk ≡ (disk, none)
unfolding save_temp_path open_file open_stream make_file
not_saved permits path bytes disk closed = rw (save_temp_path, open_stream, closed) refl

-- A temporary file with a path that is new and that the system permits: save_temp_path gives the path, where
-- the bytes now are, and every other file is as before; of a path that the system does not permit it gives
-- none and leaves the disk. The bytes are fewer than 2 ^ 32.
pub temp_file_saved :
    (permits : Text → Bool) (path other : Text) (bytes : List ℕ) (disk : Disk)
    → find path disk ≡ none
    → Fits bytes
    → let (disk', saved) = save_temp_path permits path bytes disk in
      (saved ≡ (if permits path then some path else none))
      × (find other disk'
          ≡ (if permits path && (path == other) then some bytes else find other disk))
temp_file_saved permits path other bytes disk new small = elim (Bool-cases (permits path)) [
  | inr closed ↦ rw (not_saved permits path bytes disk closed, closed) (refl, refl)
  | inl permitted ↦
      rw (saved_new permits path bytes disk permitted new small, permitted)
        (refl, find-assign path other bytes disk)
]
