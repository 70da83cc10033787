-- ===== src/Tests/OfFiles.antt =====
-- The theorems on File.cpp, Folder.cpp and Logger.cpp at concrete inputs, on a system that permits every
-- path.
use mathlib.Core.List
use mathlib.Core.List.{flatten}
use mathlib.Core.Option.{map}
use cpp_toolkit.Prelude.{
  ℕ, ◌-◌, ◌^◌, ◌<◌, ◌≡◌, ◌≢◌, refl, arith, Bool, true, false, Option, none, some, List, [], ◌∷◌,
  ◌++◌, codes, if◌then◌else◌, ◌==◌, bytes_eq, length, max, min, take, drop, length-append,
}
use cpp_toolkit.Prelude.Map.{find}
use cpp_toolkit.Utilities.Combiner.Fields.{field, length-field}
use cpp_toolkit.Utilities.Converter.{has_bom}
use cpp_toolkit.Utilities.File.{Disk, Text}
use cpp_toolkit.Utilities.File.Bytes.{save, fetch, fetch-save}
use cpp_toolkit.Utilities.File.Lines.{
  kept, ending, save_lines, fetch_lines, terminated, fetch-save_lines,
}
use cpp_toolkit.Utilities.Folder.{
  Paths, Entries, end, file, folder, listing, returned, out_of_fuel, selected, get_files, pack,
  decompression,
}
use cpp_toolkit.Utilities.Folder.Search.{retain_found, get_files-retain}
use cpp_toolkit.Utilities.Folder.Packing.{Item, IsPackable, archive, entry_data}
use cpp_toolkit.Utilities.Folder.Unpacking.{
  IsUnpackable, placed, decompression_ends, decompression-pack,
}
use cpp_toolkit.Prelude.Bytes.{le_bytes}
use cpp_toolkit.Utilities.Compressor
use cpp_toolkit.Utilities.Compressor.{Lz4}
use cpp_toolkit.Utilities.Compressor.Blocks.{TakesBack, decompression-compression}
use cpp_toolkit.Utilities.Logger.{Logger, information, error, log_eq, write_file}
use cpp_toolkit.Utilities.Logger.Lines.{with_feeds, write_file_keeps}

abbrev all_permitted : Text → Bool
all_permitted path = true

abbrev a_path : Text
a_path = codes "a"

abbrev b_path : Text
b_path = codes "b"

abbrev a_disk : Disk
a_disk = (a_path, 1 ∷ 2 ∷ []) ∷ (b_path, 3 ∷ []) ∷ []

abbrev pieces : List (List ℕ)
pieces = (7 ∷ []) ∷ [] ∷ (8 ∷ 9 ∷ []) ∷ []

fetch-save_example :
    let disk' = (save all_permitted a_path pieces a_disk).0 in
    (fetch all_permitted a_path disk' ≡ some (flatten pieces))
    × (find b_path disk' ≡ (if a_path == b_path then some (flatten pieces) else find b_path a_disk))
fetch-save_example =
    fetch-save all_permitted a_path b_path pieces a_disk refl
      (omega arith, (omega arith, (omega arith, tt)))

abbrev some_lines : List Text
some_lines = [] ∷ codes "x" ∷ [] ∷ codes "yz" ∷ []

fetch-save_lines_example :
    fetch_lines false all_permitted a_path (save_lines all_permitted a_path some_lines a_disk)
    ≡ some (List.map (λ line. line ++ ending false) (kept some_lines))
fetch-save_lines_example =
    fetch-save_lines false all_permitted a_path some_lines a_disk refl
      (tt, ((refl, tt), (tt, ((refl, (refl, tt)), tt))))

-- A codec that puts a byte in front.
abbrev mark : List ℕ → Option (List ℕ) × Text
mark bytes = (some (0 ∷ bytes), [])

abbrev unmark : List ℕ → Option (List ℕ) × Text
unmark bytes = (some (drop 1 bytes), [])

found_a : find a_path a_disk ≡ some (1 ∷ 2 ∷ [])
unfolding find
found_a = refl

-- Paths with a slash between their parts; the base of a relative one is a single character.
abbrev some_paths : Paths
some_paths = record {
  append = λ base name. base ++ codes "/" ++ name;
  lexically_relative = λ path base. drop 2 path;
  extension = λ path. drop (length path) path;
}

abbrev some_entries : Entries
some_entries = file (codes "x.h") (folder (codes "d") (file (codes "y.h") end) end)

get_files-retain_example :
    get_files some_paths (codes "s") (listing some_entries) true (codes ".h" ∷ [])
    ≡ map
        (retain_found (selected some_paths (codes ".h" ∷ [])))
        (get_files some_paths (codes "s") (listing some_entries) true [])
get_files-retain_example =
    get_files-retain some_paths (codes ".h" ∷ []) (codes "s") (listing some_entries) true

abbrev an_item : Item
an_item = (codes "s/x", (codes "x", 4 ∷ 5 ∷ []))

abbrev source_disk : Disk
source_disk = (codes "s/x", 4 ∷ 5 ∷ []) ∷ []

entry_small : length (entry_data an_item.1) ≡ 19
entry_small = omega (
  arith,
  length-append (field (codes "x")) (field (4 ∷ 5 ∷ [])),
  length-field (codes "x"),
  length-field (4 ∷ 5 ∷ []),
)

item-IsPackable : IsPackable some_paths all_permitted (codes "z") (codes "s") source_disk an_item
unfolding find
item-IsPackable = record {
  named = refl;
  permitted = refl;
  has_content = refl;
  not_archive = refl;
  small = omega (arith, entry_small);
}

item-IsUnpackable : IsUnpackable some_paths all_permitted (codes "t") an_item.1
unfolding has_bom
item-IsUnpackable = record { no_mark = refl; permitted = refl; small = omega (arith, entry_small) }

archive_small : length (archive (an_item.1 ∷ [])) < 2 ^ 63
archive_small = omega (
  arith,
  entry_small,
  length-append (field (entry_data an_item.1)) [],
  length-field (entry_data an_item.1),
)

decompression-pack_example :
    let (disk', outcome) =
      pack some_paths all_permitted (codes "z") (codes "s") (codes "s/x" ∷ []) source_disk in
    (outcome ≡ (true, none))
    × (decompression some_paths all_permitted (codes "t") (codes "z") disk'
        ≡ returned (placed some_paths (codes "t") (an_item.1 ∷ []) disk') (true, none))
decompression-pack_example =
    decompression-pack some_paths all_permitted (codes "t") (codes "s") (codes "z") source_disk
      (an_item ∷ []) refl (item-IsPackable, tt) (item-IsUnpackable, tt) archive_small

decompression_ends_example :
    decompression some_paths all_permitted (codes "t") a_path a_disk ≢ out_of_fuel
decompression_ends_example =
    decompression_ends some_paths all_permitted (codes "t") a_path a_disk (1 ∷ 2 ∷ []) refl found_a
      (omega arith)

abbrev a_logger : Logger
a_logger = record {
  file_mode = information;
  console_mode = error;
  database_mode = false;
  notification = false;
  max_lines = 2;
  max_file_size = 100;
  file_backup_mode = true;
}

abbrev log_disk : Disk
log_disk = (a_path, codes "p" ++ (10 ∷ []) ++ codes "q" ++ (10 ∷ [])) ∷ []

found_log : find a_path log_disk ≡ some (terminated (codes "p" ∷ codes "q" ∷ []))
unfolding find
found_log = refl

write_file_keeps_example :
    let messages = (codes "r" ++ (10 ∷ [])) ∷ [] in
    let (disk', removed) = write_file all_permitted a_logger a_path messages log_disk in
    let all = with_feeds (codes "p" ∷ codes "q" ∷ []) ++ messages in
    let gone = length all - max 2 (min 2 (length all)) in
    (removed ≡ take gone all) × (find a_path disk' ≡ some (flatten (drop gone all)))
write_file_keeps_example =
    write_file_keeps all_permitted a_path refl a_logger (codes "p" ∷ codes "q" ∷ [])
      (codes "r" ++ (10 ∷ [])) [] log_disk refl (omega arith) found_log
      ((refl, tt), ((refl, tt), tt))

-- A codec that leaves each block as it is.
abbrev no_codec : Lz4 (Unit {0}) (Unit {0})
no_codec = record {
  reset = tt;
  fresh = tt;
  compress = λ c block. (c, block);
  decompress = λ d coded. (d, coded);
  bound = 100000;
}

no_codec-TakesBack : TakesBack no_codec (λ c d. Unit {0}) 2
no_codec-TakesBack c d block p some_bytes short = (some_bytes, omega arith, omega arith, refl, tt)

coded_short : length (Compressor.compress_blocks no_codec 4 2 tt (5 ∷ 6 ∷ 7 ∷ [])) < 2 ^ 31
unfolding Compressor.compress_blocks Compressor.frame le_bytes
coded_short = omega arith

decompression-compression_example :
    (coded : List ℕ) × (Compressor.compression no_codec 2 (5 ∷ 6 ∷ 7 ∷ [])
      ≡ (some coded, codes "compressing"))
    × (Compressor.decompression no_codec coded
        ≡ some (some (5 ∷ 6 ∷ 7 ∷ []), codes "decompressing"))
decompression-compression_example =
    decompression-compression no_codec (λ c d. Unit {0}) 2 5 (6 ∷ 7 ∷ []) no_codec-TakesBack tt
      (omega arith) (omega arith) coded_short
