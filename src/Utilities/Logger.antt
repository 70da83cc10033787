-- ===== src/Utilities/Logger.antt =====
-- Utilities/Logger.cpp (and LogTypes.h): what a round of the logging thread does with the logs that it has
-- taken. A log is given by its type and by what to_json and to_string give for it; the paths of the day,
-- which rest on the clock, are arguments. Printing and the notification of the user are values.
pub mod Lines
pub mod Queue
pub mod Order
pub mod Cycle
use cpp_toolkit.Prelude.{
  ℕ, ◌+◌, ◌%◌, ◌^◌, ◌≡◌, arith, Bool, true, false, not, ◌||◌, Option, none, some, List, [], ◌∷◌,
  ◌++◌, if◌then◌else◌, ◌==◌, nat_eq, Eq, rank_eq, bytes_eq, length, is_empty, leb, ltb,
}
use cpp_toolkit.Prelude.Map.{find, assign}
use cpp_toolkit.Utilities.File.{
  Disk, Text, File, reading, truncating, appending, make_file, open_file, write_bytes, write_lines,
  read_bytes, read_lines, close, exists, content_of,
}

pub data LogTypes : Type 0 where
  no_log exception error information debug sequence parameter packet : LogTypes

abbrev pub log_rank : LogTypes → ℕ
log_rank no_log = 0
log_rank exception = 1
log_rank error = 2
log_rank information = 3
log_rank debug = 4
log_rank sequence = 5
log_rank parameter = 6
log_rank packet = 7

pub log_rank_inj : (a b : LogTypes) → log_rank a ≡ log_rank b → a ≡ b
log_rank_inj a b h = ground arith

instance abbrev pub log_eq : Eq LogTypes
log_eq = rank_eq log_rank log_rank_inj

pub record Log : Type 0 where
  pub log_type : LogTypes
  pub json : Text
  pub text : Text

-- `notification` tells whether notification_ is set.
pub record Logger : Type 0 where
  pub file_mode : LogTypes
  pub console_mode : LogTypes
  pub database_mode : Bool
  pub notification : Bool
  pub max_lines : ℕ
  pub max_file_size : ℕ
  pub file_backup_mode : Bool

-- max_lines(line_count), whose member is a uint16_t.
unfoldable pub set_max_lines : ℕ → Logger → Logger
set_max_lines line_count logger = record logger { max_lines = line_count % 2 ^ 16 }

-- convert_log: the texts for the console and for the file, and those for the database.
unfoldable pub convert_log : Logger → List Log → List Text × List Text × List Text
convert_log logger [] = ([], [], [])
convert_log logger (message ∷ messages) =
    let (console, file, database) = convert_log logger messages in
    let rank = log_rank message.log_type in
    (
      (if leb rank (log_rank logger.console_mode) then message.text ∷ console else console),
      (if leb rank (log_rank logger.file_mode) then message.text ∷ file else file),
      message.json ∷ database,
    )

-- write_console, and what it prints, joined.
unfoldable pub write_console : Logger → List Text → List Text
write_console logger messages = if logger.console_mode == no_log then [] else messages

-- write_database, and what notification_ is called with, if it is.
unfoldable pub write_database : Logger → List Text → Option (List Text)
write_database logger messages =
    if not logger.database_mode || not logger.notification || is_empty messages
    then none
    else some messages

-- The loop of write_file: the lines that are removed and those that are kept. A line is removed before one
-- is added where there are max_lines.
unfoldable pub keep_lines : ℕ → List Text → List Text → List Text × List Text
keep_lines max_lines lines [] = ([], lines)
keep_lines max_lines [] (message ∷ messages) = keep_lines max_lines (message ∷ []) messages
keep_lines max_lines (line ∷ lines) (message ∷ messages) =
    let (removed, kept) = keep_lines max_lines (lines ++ (message ∷ [])) messages in
    let on = keep_lines max_lines (line ∷ lines ++ (message ∷ [])) messages in
    if leb max_lines (length (line ∷ lines)) then (line ∷ removed, kept) else on

-- The lines that write_file finds, and its File behind that.
unfoldable pub old_lines : (Text → Bool) → Text → Disk → File × List Text
unfolding make_file
old_lines permits path disk =
    let (disk', file, opened) = open_file permits path reading disk make_file in
    if not opened.0
    then (file, [])
    else (let (file', lines, message) = read_lines true disk' file in
        (close file', elim lines [ none ↦ [] | some found ↦ found ]))

abbrev pub write_all : (Text → Bool) → Text → List Text → Disk → File → Disk
write_all permits path lines disk file =
    let (disk', file', opened) = open_file permits path truncating disk file in
    (write_lines lines false disk' file').0

-- write_file: the disk, and the lines that have been removed from the file.
unfoldable pub write_file : (Text → Bool) → Logger → Text → List Text → Disk → Disk × List Text
unfolding keep_lines old_lines make_file
write_file permits logger path messages disk =
    if (logger.file_mode == no_log) || is_empty messages
    then (disk, [])
    else if logger.max_lines == 0
    then (let (disk', file, opened) = open_file permits path appending disk make_file in
        ((if opened.0 then (write_lines messages false disk' file).0 else disk'), []))
    else (let (file, lines) = old_lines permits path disk in
        let (removed, kept) = keep_lines logger.max_lines lines messages in
        (write_all permits path kept disk file, removed))

-- backup_file of the removed lines.
unfoldable pub backup_lines : (Text → Bool) → Logger → List Text → Text → Disk → Disk
unfolding make_file
backup_lines permits logger lines backup_path disk =
    if (logger.file_mode == no_log) || is_empty lines
    then disk
    else (let (disk', backup, opened) = open_file permits backup_path appending disk make_file in
        (write_lines lines true disk' backup).0)

-- backup_file of a whole file, once it is large enough.
unfoldable pub backup_file : (Text → Bool) → Logger → Text → Text → Disk → Disk
unfolding make_file
backup_file permits logger source_path backup_path disk =
    if (logger.file_mode == no_log)
      || not (exists source_path disk)
      || ltb (length (content_of source_path disk)) logger.max_file_size
    then disk
    else (let (disk1, source, opened) = open_file permits source_path reading disk make_file in
        let (source', found, message) = read_bytes disk1 source in
        elim found [
          | none ↦ disk1
          | some source_data ↦
              let (disk2, backup, opened2) =
                open_file permits backup_path appending disk1 make_file in
              assign source_path [] (write_bytes source_data disk2 backup).0
        ])

-- write_log, with what it prints and what it tells the user.
unfoldable pub write_log :
    (Text → Bool) → Logger → Text → Text → List Log → Disk → Disk × List Text × Option (List Text)
unfolding convert_log write_console write_database write_file backup_lines backup_file
write_log permits logger log_path backup_path messages disk =
    let (console, file, database) = convert_log logger messages in
    let (disk', removed) = write_file permits logger log_path file disk in
    (
      (if not logger.file_backup_mode
          then disk'
          else if ltb 0 logger.max_lines
          then backup_lines permits logger removed backup_path disk'
          else backup_file permits logger log_path backup_path disk'),
      write_console logger console,
      write_database logger database,
    )
