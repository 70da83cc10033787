-- ===== src/Utilities/File.antt =====
-- Utilities/File.h and File.cpp over a disk, a map from paths to contents. std::fstream is a part of the
-- model: a stream has a mode, one position for both directions and a flag for failbit and badbit, which
-- only a new open clears. `permits` tells which paths the system lets the program open. Locales and the
-- folders that open makes on its way are left out.
pub mod Bytes
pub mod Lines
pub mod Coded
use cpp_toolkit.Prelude.{
  ℕ, ◌%◌, ◌^◌, ◌+◌, Bool, true, false, not, Option, none, some, List, [], ◌∷◌, ◌++◌, codes,
  if◌then◌else◌, ◌==◌, nat_eq, bytes_eq, length, leb, is_empty, take, drop, ltb, ◌||◌, zero, suc,
}
use cpp_toolkit.Prelude.Map.{find, assign}

abbrev pub Text : Type 0
Text = List ℕ

abbrev pub Outcome : Type 0
Outcome = Bool × Option Text

abbrev pub Disk : Type 0
Disk = List (Text × List ℕ)

-- The sets of std::ios flags that the library opens files with; binary changes nothing here.
pub data OpenMode : Type 0 where
  reading truncating appending : OpenMode

pub record Stream : Type 0 where
  pub mode : OpenMode
  pub path : Text
  pub position : ℕ
  pub failed : Bool

-- openmode_ is the default value of std::ios_base::openmode, and no function assigns it: its two flags that
-- are tested, and the number that a message shows.
pub record File : Type 0 where
  pub file_path : Text
  pub openmode_in : Bool
  pub openmode_out : Bool
  pub openmode_number : Text
  pub stream : Option Stream

unfoldable pub make_file : File
make_file = record {
  file_path = [];
  openmode_in = false;
  openmode_out = false;
  openmode_number = codes "0";
  stream = none;
}

abbrev pub is_open : File → Bool
is_open f = elim f.stream [ none ↦ false | some s ↦ true ]

abbrev pub stream_at : OpenMode → Text → Stream
stream_at mode path = record { mode = mode; path = path; position = 0; failed = false }

abbrev pub exists : Text → Disk → Bool
exists path disk = elim (find path disk) [ none ↦ false | some content ↦ true ]

abbrev pub content_of : Text → Disk → List ℕ
content_of path disk = elim (find path disk) [ none ↦ [] | some content ↦ content ]

-- fstream::open: the stream and the disk. It fails on a stream that is open, and leaves it open.
unfoldable pub open_stream :
    (Text → Bool) → Text → OpenMode → Disk → Option Stream → Disk × Option Stream
unfolding find assign
open_stream permits path mode disk (some s) = (disk, some (record s { failed = true }))
open_stream permits path mode disk none = if not (permits path) then (disk, none) else elim mode [
  | reading ↦ (disk, (if exists path disk then some (stream_at reading path) else none))
  | truncating ↦ (assign path [] disk, some (stream_at truncating path))
  | appending ↦
      ((if exists path disk then disk else assign path [] disk), some (stream_at appending path))
]

unfoldable pub open_file : (Text → Bool) → Text → OpenMode → Disk → File → Disk × File × Outcome
unfolding open_stream
open_file permits path mode disk f =
    let (disk', s) = open_stream permits path mode disk f.stream in
    let f' = record f { file_path = path; stream = s } in
    if not (is_open f')
    then (
      disk',
      f',
      (
        false,
        some (
            if not (exists path disk')
            then codes "there is no file : " ++ path
            else codes "cannot open file : " ++ path),
      ),
    )
    else (disk', f', (true, none))

-- The content with `bytes` at `position`; a gap behind the old end is filled with zeros.
unfoldable pub overwrite : ℕ → List ℕ → List ℕ → List ℕ
overwrite zero bytes content = bytes ++ drop (length bytes) content
overwrite (suc n) bytes [] = 0 ∷ overwrite n bytes []
overwrite (suc n) bytes (c ∷ content) = c ∷ overwrite n bytes content

-- stream_.write. Nothing happens on a stream that has failed, and one for reading fails.
unfoldable pub put : List ℕ → Disk → Stream → Disk × Stream
unfolding overwrite
put bytes disk s =
    if s.failed || is_empty bytes
    then (disk, s)
    else (let content = content_of s.path disk in
        elim s.mode [
          | reading ↦ (disk, record s { failed = true })
          | truncating ↦ (
            assign s.path (overwrite s.position bytes content) disk,
            record s { position = s.position + length bytes },
          )
          | appending ↦ (
            assign s.path (content ++ bytes) disk,
            record s { position = length content + length bytes },
          )
        ])

-- What every writer does before and after it hands its bytes to the stream.
abbrev pub write : List ℕ → Disk → File → Disk × File × Outcome
write bytes disk f =
    if f.openmode_in
    then (
      disk,
      f,
      (
        false,
        some (
            codes "cannot write file by wrong openmode : "
            ++ f.openmode_number
            ++ codes " -> "
            ++ f.file_path),
      ),
    )
    else elim f.stream [
      | none ↦ (
        disk,
        f,
        (false, some (codes "cannot write file by unopened condition : " ++ f.file_path)),
      )
      | some s ↦
          let (disk', s') = put bytes disk s in (disk', record f { stream = some s' }, (true, none))
    ]

-- write_bytes. The size goes through a uint32_t.
unfoldable pub write_bytes : List ℕ → Disk → File → Disk × File × Outcome
unfolding put
write_bytes bytes disk f = write (take (length bytes % 2 ^ 32) bytes) disk f

-- The fold of write_lines.
unfoldable pub accumulate : Bool → Text → List Text → Text
accumulate append_newline a [] = a
accumulate append_newline a (b ∷ lines) =
    accumulate append_newline
      (if not append_newline then a ++ b else (if is_empty a then a else a ++ (10 ∷ [])) ++ b) lines

unfoldable pub write_lines : List Text → Bool → Disk → File → Disk × File × Outcome
unfolding put accumulate
write_lines lines append_newline disk f =
    write (accumulate append_newline [] lines ++ (if append_newline then 10 ∷ [] else [])) disk f

abbrev pub Read {ℓ} : Type ℓ → Type ℓ
Read A = File × Option A × Option Text

-- What every reader tests first.
abbrev pub reader {ℓ} : {A : Type ℓ} → (Stream → Stream × Option A × Option Text) → File → Read A
reader read f =
    if f.openmode_out
    then (
      f,
      none,
      some (
          codes "cannot read file by wrong openmode : "
          ++ f.openmode_number
          ++ codes " -> "
          ++ f.file_path),
    )
    else elim f.stream [
      | none ↦ (f, none, some (codes "cannot read file by unopened condition : " ++ f.file_path))
      | some s ↦
          let (s', result, message) = read s in (record f { stream = some s' }, result, message)
    ]

-- seekg from the start.
abbrev pub seek : ℕ → Stream → Stream
seek index s = if s.failed then s else record s { position = index }

-- All that is left to read; nothing, if the stream is open for writing.
abbrev pub rest_of : Disk → Stream → List ℕ
rest_of disk s = elim s.mode [
  | reading ↦ drop s.position (content_of s.path disk)
  | truncating ↦ []
  | appending ↦ []
]

-- The iterators go past the flags of the stream.
unfoldable pub read_bytes : Disk → File → Read (List ℕ)
read_bytes disk f =
    reader
      (λ s.
        let s' = seek 0 s in
        let bytes = rest_of disk s' in
        (record s' { position = s'.position + length bytes }, some bytes, none))
      f

-- A seek past the end succeeds. `shown` is the index as text.
unfoldable pub read_bytes_at : Text → ℕ → ℕ → Disk → File → Read (List ℕ)
read_bytes_at shown index size disk f =
    reader
      (λ s.
        let s' = seek index s in
        if s'.failed
        then (
          s',
          none,
          some (codes "failed to seek position: " ++ shown ++ codes " in file: " ++ f.file_path),
        )
        else (let buffer = take size (rest_of disk s') in
            (
              record s' {
                position = s'.position + length buffer;
                failed = ltb (length buffer) size;
              },
              some buffer,
              none,
            )))
      f

-- The lines of a text by getline, each with `ending` behind it.
unfoldable pub lines_of : Text → Text → Text → List Text
lines_of ending line [] = if is_empty line then [] else (line ++ ending) ∷ []
lines_of ending line (c ∷ text) =
    let on = lines_of ending (line ++ (c ∷ [])) text in
    let next = lines_of ending [] text in if c == 10 then (line ++ ending) ∷ next else on

-- The getline that finds no line fails the stream; on a stream that has failed it is the first.
unfoldable pub read_lines : Bool → Disk → File → Read (List Text)
unfolding lines_of
read_lines include_new_line disk f =
    reader
      (λ s.
        let s' = seek 0 s in
        let text = if s'.failed then [] else rest_of disk s' in
        (
          record s' { position = s'.position + length text; failed = true },
          some (lines_of (if include_new_line then 10 ∷ [] else []) [] text),
          none,
        ))
      f

unfoldable pub close : File → File
close f = if not (is_open f) then f else record f { file_path = []; stream = none }

-- The second half of compression and decompression. The program gets the same answer from the system at
-- this second open.
unfoldable pub replace_content : (Text → Bool) → Text → List ℕ → Disk → File → Disk × Outcome
replace_content permits path coded disk f =
    let (disk', f', opened) = open_file permits path truncating disk f in
    if not opened.0
    then (disk', opened)
    else (let (disk'', f'', written) = write_bytes coded disk' f' in (disk'', written))

-- compression and decompression differ in what they call of the Compressor, the argument `code`: the
-- bytes, or its message.
unfoldable pub recode_read :
    (List ℕ → Option (List ℕ) × Text) → (Text → Bool) → Text → Disk → Read (List ℕ) → Disk × Outcome
unfolding replace_content
recode_read code permits path disk (f, none, message) = (disk, (false, message))
recode_read code permits path disk (f, some bytes, message) =
    let (coded, code_message) = code bytes in
    elim coded [
      | none ↦ (disk, (false, some (codes "cannot compress file : " ++ code_message)))
      | some result ↦ replace_content permits path result disk (close f)
    ]

unfoldable pub recode :
    (List ℕ → Option (List ℕ) × Text) → (Text → Bool) → Text → Disk → Disk × Outcome
unfolding make_file recode_read
recode code permits path disk =
    let (disk', f, opened) = open_file permits path reading disk make_file in
    if not opened.0
    then (disk', opened)
    else recode_read code permits path disk' (read_bytes disk' f)
