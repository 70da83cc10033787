-- ===== src/Utilities/Folder.antt =====
-- Utilities/Folder.h and Folder.cpp: the search for files and folders, and the archive of a folder. What
-- std::filesystem::path does with texts is up to the platform and a parameter, `Paths`; a folder is the
-- list of its entries in the order of the directory iterator.
pub mod Search
pub mod Making
pub mod Packing
pub mod Unpacking
use cpp_toolkit.Prelude.{
  ℕ, zero, suc, Bool, true, false, not, ◌&&◌, ◌||◌, Option, none, some, List, [], ◌∷◌, ◌++◌, codes,
  reverse, if◌then◌else◌, ◌==◌, bytes_eq, length, is_empty,
}
use cpp_toolkit.Prelude.Bytes.{le_bytes}
use cpp_toolkit.Utilities.Combiner.{append, divide, ◌>>=◌}
use cpp_toolkit.Utilities.Converter.{to_array, to_string}
use cpp_toolkit.Utilities.File.{
  Disk, Text, File, Outcome, Read, reading, truncating, make_file, open_file, write_bytes,
  read_bytes, close,
}

pub record Paths : Type 0 where
  pub append : Text → Text → Text
  pub lexically_relative : Text → Text → Text
  pub extension : Text → Text

-- `other` stands for what is neither a folder nor a regular file.
pub data Entries : Type 0 where
  end : Entries
  file : Text → Entries → Entries
  folder : Text → Entries → Entries → Entries
  other : Text → Entries → Entries

-- What a path leads to: nothing, something that is no folder, or a folder.
pub data Place : Type 0 where
  missing no_folder : Place
  listing : Entries → Place

abbrev pub Found : Type 0
Found = Option (List Text) × Option Text

-- The loop of get_folders with the calls of itself.
unfoldable pub folders_of : Paths → Text → Bool → Entries → List Text
folders_of paths target search_sub_folder end = []
folders_of paths target search_sub_folder (file name entries) =
    folders_of paths target search_sub_folder entries
folders_of paths target search_sub_folder (other name entries) =
    folders_of paths target search_sub_folder entries
folders_of paths target search_sub_folder (folder name inner entries) =
    let path = paths.append target name in
    let sub_folders = folders_of paths path search_sub_folder inner in
    let rest = folders_of paths target search_sub_folder entries in
    path ∷ (if search_sub_folder then sub_folders else []) ++ rest

unfoldable pub is_among : Text → List Text → Bool
is_among text [] = false
is_among text (t ∷ texts) = (t == text) || is_among text texts

-- The test of get_files on a regular file.
abbrev pub selected : Paths → List Text → Text → Bool
selected paths extensions path = is_empty extensions || is_among (paths.extension path) extensions

-- The loop of get_files with the calls of itself.
unfoldable pub files_of : Paths → Text → Bool → List Text → Entries → List Text
unfolding is_among
files_of paths target search_sub_folder extensions end = []
files_of paths target search_sub_folder extensions (file name entries) =
    let path = paths.append target name in
    let rest = files_of paths target search_sub_folder extensions entries in
    if selected paths extensions path then path ∷ rest else rest
files_of paths target search_sub_folder extensions (other name entries) =
    files_of paths target search_sub_folder extensions entries
files_of paths target search_sub_folder extensions (folder name inner entries) =
    let sub_folders =
      files_of paths (paths.append target name) search_sub_folder extensions inner in
    let rest = files_of paths target search_sub_folder extensions entries in
    (if search_sub_folder then sub_folders else []) ++ rest

-- What get_folders and get_files do around their loop. `none`: the iterator throws.
abbrev pub search : Text → Place → (Entries → List Text) → Option Found
search target_path place loop =
    if is_empty target_path then some (none, some (codes "target path is empty")) else elim place [
      | missing ↦ some (none, some (codes "there is no target folder"))
      | no_folder ↦ none
      | listing entries ↦ some (some (loop entries), none)
    ]

unfoldable pub get_folders : Paths → Text → Place → Bool → Option Found
unfolding folders_of
get_folders paths target_path place search_sub_folder =
    search target_path place (folders_of paths target_path search_sub_folder)

unfoldable pub get_files : Paths → Text → Place → Bool → List Text → Option Found
unfolding files_of
get_files paths target_path place search_sub_folder extensions =
    search target_path place (files_of paths target_path search_sub_folder extensions)

-- What the loop of compression has after a round: the disk, the archive, and the outcome if it returns.
abbrev pub Packed : Type 0
Packed = Disk × File × Option Outcome

-- source_data after std::reverse.
abbrev pub packed_data : Text → List ℕ → List ℕ
packed_data name content = reverse (append (append [] (to_array name)) content)

unfoldable pub pack_data : List ℕ → Disk → File → Packed
pack_data source_data disk target_file =
    let (disk1, target1, outcome1) =
      write_bytes (le_bytes 8 (length source_data)) disk target_file in
    if not outcome1.0
    then (disk1, close target1, some outcome1)
    else (let (disk2, target2, outcome2) = write_bytes source_data disk1 target1 in
        if not outcome2.0 then (disk2, close target2, some outcome2) else (disk2, target2, none))

unfoldable pub pack_read : Text → Disk → File → Read (List ℕ) → Packed
unfolding pack_data append to_array
pack_read name disk target_file (source, none, message) = (disk, target_file, some (false, message))
pack_read name disk target_file (source, some content, message) =
    pack_data (packed_data name content) disk target_file

-- A round of the loop of compression.
unfoldable pub pack_file : Paths → (Text → Bool) → Text → Text → Disk → File → Packed
unfolding pack_read make_file
pack_file paths permits source_path search_file disk target_file =
    let (disk', source, opened) = open_file permits search_file reading disk make_file in
    if not opened.0
    then (disk', target_file, some opened)
    else pack_read (paths.lexically_relative search_file source_path) disk' target_file
        (read_bytes disk' source)

unfoldable pub pack_files : Paths → (Text → Bool) → Text → List Text → Disk → File → Packed
unfolding pack_file
pack_files paths permits source_path [] disk target_file = (disk, target_file, none)
pack_files paths permits source_path (search_file ∷ files) disk target_file =
    let (disk', target', outcome) =
      pack_file paths permits source_path search_file disk target_file in
    let rest = pack_files paths permits source_path files disk' target' in
    elim outcome [ none ↦ rest | some failed ↦ (disk', target', some failed) ]

-- compression once the files are found.
unfoldable pub pack : Paths → (Text → Bool) → Text → Text → List Text → Disk → Disk × Outcome
unfolding pack_files make_file
pack paths permits target_path source_path files disk =
    let (disk1, target_file, opened) = open_file permits target_path truncating disk make_file in
    if not opened.0
    then (disk1, opened)
    else (let (disk2, target2, outcome) =
          pack_files paths permits source_path files disk1 target_file in
        (disk2, elim outcome [ none ↦ (true, none) | some failed ↦ failed ]))

-- Folder::compression, which makes no use of block_bytes. `none`: the iterator throws.
unfoldable pub compression :
    Paths → (Text → Bool) → Text → Text → Place → Bool → List Text → Disk → Option (Disk × Outcome)
unfolding get_files pack
compression paths permits target_path source_path place search_sub_folder extensions disk =
    get_files paths source_path place search_sub_folder extensions >>= (λ found.
      let (search_files, search_message) = found in
      elim search_files [
        | none ↦ some (disk, (false, search_message))
        | some files ↦ some (pack paths permits target_path source_path files disk)
      ])

-- How decompression ends: it returns, or a call of divide reads outside of its array. `out_of_fuel` is of
-- the model alone.
pub data Ending : Type 0 where
  returned : Disk → Outcome → Ending
  undefined out_of_fuel : Ending

abbrev pub unpack_data : Paths → (Text → Bool) → Text → Text → List ℕ → Disk → Disk × Outcome
unpack_data paths permits target_path file_path file_data disk =
    let (disk', new_file, opened) =
      open_file permits (paths.append target_path file_path) truncating disk make_file in
    if not opened.0
    then (disk', opened)
    else (let (disk'', new_file', written) = write_bytes file_data disk' new_file in
        (disk'', written))

-- The name and the content of one entry of the archive.
unfoldable pub parse_entry : List ℕ → Option (Text × List ℕ)
unfolding divide to_string
parse_entry parsed_data =
    divide parsed_data 0
    >>= (λ first. divide parsed_data first.1 >>= (λ second. some (to_string first.0, second.0)))

-- What a round does with an entry: the disk, and the outcome of open or of write_bytes.
unfoldable pub unpack_entry : Paths → (Text → Bool) → Text → List ℕ → Disk → Option (Disk × Outcome)
unfolding parse_entry make_file
unpack_entry paths permits target_path parsed_data disk =
    parse_entry parsed_data
    >>= (λ entry. some (unpack_data paths permits target_path entry.0 entry.1 disk))

-- A round of the loop of decompression, from what its divide gives; `next` is the rest of the loop.
unfoldable pub unpack_round :
    Paths → (Text → Bool) → Text → Disk → (ℕ → Disk → Ending) → Option (List ℕ × ℕ) → Ending
unpack_round paths permits target_path disk next none = undefined
unpack_round paths permits target_path disk next (some (parsed_data, index)) =
    if is_empty parsed_data
    then returned disk (true, none)
    else elim (unpack_entry paths permits target_path parsed_data disk) [
      | none ↦ undefined
      | some (disk', outcome) ↦ if outcome.0 then next index disk' else returned disk' outcome
    ]

unfoldable pub unpack : ℕ → Paths → (Text → Bool) → Text → List ℕ → ℕ → Disk → Ending
unpack zero paths permits target_path source_data index disk = out_of_fuel
unpack (suc fuel) paths permits target_path source_data index disk =
    unpack_round paths permits target_path disk (unpack fuel paths permits target_path source_data)
      (divide source_data index)

unfoldable pub unpack_read : Paths → (Text → Bool) → Text → Disk → Read (List ℕ) → Ending
unfolding unpack
unpack_read paths permits target_path disk (source, none, message) = returned disk (false, message)
unpack_read paths permits target_path disk (source, some data_read, message) =
    unpack (suc (length data_read)) paths permits target_path data_read 0 disk

-- Folder::decompression, which makes no use of block_bytes and drops what create_folder returns.
unfoldable pub decompression : Paths → (Text → Bool) → Text → Text → Disk → Ending
unfolding unpack_read make_file
decompression paths permits target_path source_path disk =
    let (disk', source, opened) = open_file permits source_path reading disk make_file in
    if not opened.0
    then returned disk' opened
    else unpack_read paths permits target_path disk' (read_bytes disk' source)
