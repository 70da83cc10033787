-- ===== src/Utilities/File/Bytes.antt =====
-- Files that are opened, written and read: what each step comes to, and the round trip.
use native.Mathlib.Nat.{mod-eq_of_lt, zero-add}
use mathlib.Core.List.{flatten, append-nil, append_assoc}
use cpp_toolkit.Prelude.{
  ℕ, zero, suc, ◌+◌, ◌%◌, ◌^◌, ◌<◌, ◌≡◌, refl, sym, ap, ◌∙◌, arith, Bool, true, Option, none, some,
  List, [], ◌∷◌, ◌++◌, if◌then◌else◌, ◌==◌, bytes_eq, length, drop, take_all, All, length-append,
}
use cpp_toolkit.Prelude.Map.{find, assign, find-assign, find-assign_same, assign-assign}
use cpp_toolkit.Utilities.File.{
  Disk, Text, File, Outcome, OpenMode, reading, truncating, make_file, open_stream, open_file,
  stream_at, write_bytes, write, put, overwrite, read_bytes, close, content_of,
}

abbrev pub closed : File
closed = make_file

-- A file whose stream is open, with all before `position` behind it.
abbrev pub opened : OpenMode → Text → ℕ → File
opened mode path position = record (make_file) {
  file_path = path;
  stream = some (record (stream_at mode path) { position = position });
}

pub open-truncating :
    (permits : Text → Bool) (path : Text) (disk : Disk)
    → permits path ≡ true
    → open_file permits path truncating disk closed
      ≡ (assign path [] disk, opened truncating path 0, (true, none))
unfolding open_file make_file open_stream
open-truncating permits path disk h = rw (open_stream, h) refl

pub open-reading :
    (permits : Text → Bool) (path : Text) (disk : Disk) (content : List ℕ)
    → permits path ≡ true
    → find path disk ≡ some content
    → open_file permits path reading disk closed ≡ (disk, opened reading path 0, (true, none))
unfolding open_file make_file open_stream
open-reading permits path disk content h e = ground arith

drop_nil : (n : ℕ) → drop {A = ℕ} n [] ≡ []
drop_nil zero = refl
drop_nil (suc n) = refl

pub content_of_found :
    (path : Text) (disk : Disk) (content : List ℕ)
    → find path disk ≡ some content
    → content_of path disk ≡ content
content_of_found path disk content e = rw (content_of, e) refl

overwrite_end :
    (n : ℕ) (bytes content : List ℕ)
    → n ≡ length content
    → overwrite n bytes content ≡ content ++ bytes
unfolding overwrite
overwrite_end zero bytes [] h = rw (drop_nil (length bytes)) (append-nil bytes)
overwrite_end zero bytes (c ∷ content) h = absurd (omega arith)
overwrite_end (suc n) bytes [] h = absurd (omega arith)
overwrite_end (suc n) bytes (c ∷ content) h =
    ap (◌∷◌ c) (overwrite_end n bytes content (omega arith))

-- All of a list of pieces, one after the other.
abbrev pub write_each : List (List ℕ) → Disk → File → Disk × File
write_each [] disk f = (disk, f)
write_each (bytes ∷ pieces) disk f =
    let (disk', f', outcome) = write_bytes bytes disk f in write_each pieces disk' f'

-- A writer at the end of its file appends, a writer of no bytes included.
pub write-opened :
    (path : Text) (bytes content : List ℕ) (disk : Disk)
    → write bytes (assign path content disk) (opened truncating path (length content)) ≡ (
      assign path (content ++ bytes) disk,
      opened truncating path (length (content ++ bytes)),
      (true, none),
    )
unfolding make_file put
write-opened path [] content disk =
    ap (λ x. (assign path x disk, opened truncating path (length x), (true, none)))
      (sym (append-nil content))
write-opened path (b ∷ bytes) content disk =
    let disk' = assign path content disk in
    let behind : List ℕ → Disk × File × Outcome = λ x. (
      assign path x disk',
      opened truncating path (length content + length (b ∷ bytes)),
      (true, none),
    ) in
    let before = content_of_found path disk' content (find-assign_same path content disk) in
    ap (λ x. behind (overwrite (length content) (b ∷ bytes) x)) before
    ∙ ap behind (overwrite_end (length content) (b ∷ bytes) content refl)
    ∙ rw (assign-assign path (content ++ b ∷ bytes) content disk, length-append content (b ∷ bytes))
        refl

-- No piece is as long as uint32_t can hold and one more.
abbrev pub Fits : List ℕ → Type 0
Fits bytes = length bytes < 2 ^ 32

pub write_bytes-opened :
    (path : Text) (bytes content : List ℕ) (disk : Disk)
    → Fits bytes
    → write_bytes bytes (assign path content disk) (opened truncating path (length content)) ≡ (
      assign path (content ++ bytes) disk,
      opened truncating path (length (content ++ bytes)),
      (true, none),
    )
unfolding write_bytes
write_bytes-opened path bytes content disk h =
    let whole = take_all (length bytes % 2 ^ 32) bytes (omega (arith, mod-eq_of_lt h)) in
    rw whole (write-opened path bytes content disk)

write_each-opened :
    (path : Text) (pieces : List (List ℕ)) (content : List ℕ) (disk : Disk)
    → All Fits pieces
    → write_each pieces (assign path content disk) (opened truncating path (length content)) ≡ (
      assign path (content ++ flatten pieces) disk,
      opened truncating path (length (content ++ flatten pieces)),
    )
unfolding flatten
write_each-opened path [] content disk small =
    ap (λ x. (assign path x disk, opened truncating path (length x))) (sym (append-nil content))
write_each-opened path (bytes ∷ pieces) content disk (h, small) =
    rw (write_bytes-opened path bytes content disk h) (
      write_each-opened path pieces (content ++ bytes) disk small
      ∙ ap (λ x. (assign path x disk, opened truncating path (length x)))
          (append_assoc content bytes (flatten pieces)))

pub read-opened :
    (path : Text) (disk : Disk) (content : List ℕ)
    → find path disk ≡ some content
    → read_bytes disk (opened reading path 0)
      ≡ (opened reading path (length content), some content, none)
unfolding read_bytes make_file
read-opened path disk content e = rw zero-add (
    ap (λ x. (opened reading path (length x), some x, none)) (content_of_found path disk content e))

pub close-opened :
    (mode : OpenMode) (path : Text) (position : ℕ) → close (opened mode path position) ≡ closed
unfolding close make_file
close-opened mode path position = refl

-- Truncating a file and writing pieces to it: the disk, and the file after it is closed.
abbrev pub save : (Text → Bool) → Text → List (List ℕ) → Disk → Disk × File
save permits path pieces disk =
    let (disk1, f, outcome) = open_file permits path truncating disk closed in
    let (disk2, f') = write_each pieces disk1 f in (disk2, close f')

abbrev pub fetch : (Text → Bool) → Text → Disk → Option (List ℕ)
fetch permits path disk =
    let (disk1, f, outcome) = open_file permits path reading disk closed in (read_bytes disk1 f).1

pub save-assign :
    (permits : Text → Bool) (path : Text) (pieces : List (List ℕ)) (disk : Disk)
    → permits path ≡ true
    → All Fits pieces
    → save permits path pieces disk ≡ (assign path (flatten pieces) disk, closed)
save-assign permits path pieces disk h small =
    rw (save, open-truncating permits path disk h, write_each-opened path pieces [] disk small)
      (ap (λ f. (assign path (flatten pieces) disk, f))
        (close-opened truncating path (length (flatten pieces))))

-- The pieces that are written to a file the system permits are, one behind the other, what a later read
-- of it gives, and every other file is as before: where no piece has 2 ^ 32 bytes or more.
pub fetch-save :
    (permits : Text → Bool) (path other : Text) (pieces : List (List ℕ)) (disk : Disk)
    → permits path ≡ true
    → All Fits pieces
    → let disk' = (save permits path pieces disk).0 in
      (fetch permits path disk' ≡ some (flatten pieces))
      × (find other disk' ≡ (if path == other then some (flatten pieces) else find other disk))
fetch-save permits path other pieces disk h small =
    let written = ap (λ x. x.0) (save-assign permits path pieces disk h small) in
    let disk' = assign path (flatten pieces) disk in
    let found : find path disk' ≡ some (flatten pieces) =
      find-assign_same path (flatten pieces) disk in
    rw written (
      rw (fetch, open-reading permits path disk' (flatten pieces) h found)
          (ap (λ x. x.1) (read-opened path disk' (flatten pieces) found)),
      find-assign path other (flatten pieces) disk,
    )
