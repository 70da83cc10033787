-- ===== src/Utilities/File/Lines.antt =====
-- Lines that are written to a file and read back.
use mathlib.Core.List.{append-nil, append_assoc}
use cpp_toolkit.Prelude.{
  ℕ, ◌≡◌, refl, sym, ap, ◌∙◌, Bool, true, false, Option, some, List, [], ◌∷◌, ◌++◌, if◌then◌else◌,
  ◌==◌, nat_eq, bytes_eq, All, map,
}
use cpp_toolkit.Prelude.Map.{find, assign, find-assign_same}
use cpp_toolkit.Utilities.File.{
  Disk, Text, reading, truncating, make_file, open_file, accumulate, lines_of, write, write_lines,
  read_lines,
}
use cpp_toolkit.Utilities.File.Bytes.{
  closed, opened, open-truncating, open-reading, write-opened, content_of_found,
}

abbrev pub Line : Text → Type 0
Line line = All (λ c. (c == 10) ≡ false) line

lines_of-Line :
    (ending before line rest : Text)
    → Line line
    → lines_of ending before (line ++ 10 ∷ rest)
      ≡ (before ++ line ++ ending) ∷ lines_of ending [] rest
unfolding lines_of
lines_of-Line ending before [] rest h =
    ap (λ x. (x ++ ending) ∷ lines_of ending [] rest) (sym (append-nil before))
lines_of-Line ending before (c ∷ line) rest (h, hs) = rw h (
    lines_of-Line ending (before ++ (c ∷ [])) line rest hs
    ∙ ap (λ x. (x ++ ending) ∷ lines_of ending [] rest) (append_assoc before (c ∷ []) line))

-- Each line with a line feed behind it.
abbrev pub terminated : List Text → Text
terminated [] = []
terminated (line ∷ lines) = line ++ 10 ∷ terminated lines

pub lines_of-terminated :
    (ending : Text) (lines : List Text)
    → All Line lines
    → lines_of ending [] (terminated lines) ≡ map (λ line. line ++ ending) lines
unfolding lines_of
lines_of-terminated ending [] h = refl
lines_of-terminated ending (line ∷ lines) (h, hs) =
    lines_of-Line ending [] line (terminated lines) h
    ∙ ap (◌∷◌ (line ++ ending)) (lines_of-terminated ending lines hs)

-- From a text that is not empty on, write_lines puts a line feed before each line.
accumulate-terminated :
    (c : ℕ) (a : Text) (lines : List Text)
    → accumulate true (c ∷ a) lines ++ (10 ∷ []) ≡ c ∷ a ++ 10 ∷ terminated lines
unfolding accumulate
accumulate-terminated c a [] = refl
accumulate-terminated c a (line ∷ lines) =
    accumulate-terminated c (a ++ (10 ∷ []) ++ line) lines
    ∙ append_assoc (c ∷ a ++ (10 ∷ [])) line (10 ∷ terminated lines)
    ∙ append_assoc (c ∷ a) (10 ∷ []) (line ++ 10 ∷ terminated lines)

-- The lines that a reader of the written text finds: those from the first that is not empty on, or one
-- empty line.
abbrev pub kept : List Text → List Text
kept [] = [] ∷ []
kept ([] ∷ lines) = kept lines
kept ((c ∷ line) ∷ lines) = (c ∷ line) ∷ lines

accumulate-kept :
    (lines : List Text) → accumulate true [] lines ++ (10 ∷ []) ≡ terminated (kept lines)
unfolding accumulate
accumulate-kept [] = refl
accumulate-kept ([] ∷ lines) = accumulate-kept lines
accumulate-kept ((c ∷ line) ∷ lines) = accumulate-terminated c line lines

kept-Line : (lines : List Text) → All Line lines → All Line (kept lines)
kept-Line [] h = (tt, tt)
kept-Line ([] ∷ lines) (h, hs) = kept-Line lines hs
kept-Line ((c ∷ line) ∷ lines) h = h

-- Writing lines to a file with line feeds.
abbrev pub save_lines : (Text → Bool) → Text → List Text → Disk → Disk
save_lines permits path lines disk =
    let (disk', f, outcome) = open_file permits path truncating disk closed in
    (write_lines lines true disk' f).0

abbrev pub fetch_lines : Bool → (Text → Bool) → Text → Disk → Option (List Text)
fetch_lines include_new_line permits path disk =
    let (disk', f, outcome) = open_file permits path reading disk closed in
    (read_lines include_new_line disk' f).1

write_lines-opened :
    (path : Text) (lines : List Text) (disk : Disk)
    → (write_lines lines true (assign path [] disk) (opened truncating path 0)).0
      ≡ assign path (terminated (kept lines)) disk
unfolding write_lines
write_lines-opened path lines disk =
    ap (λ x. (write x (assign path [] disk) (opened truncating path 0)).0) (accumulate-kept lines)
    ∙ ap (λ x. x.0) (write-opened path (terminated (kept lines)) [] disk)

abbrev pub ending : Bool → Text
ending include_new_line = if include_new_line then 10 ∷ [] else []

read_lines-opened :
    (include_new_line : Bool) (path : Text) (disk : Disk) (content : List ℕ)
    → find path disk ≡ some content
    → (read_lines include_new_line disk (opened reading path 0)).1
      ≡ some (lines_of (ending include_new_line) [] content)
unfolding read_lines make_file
read_lines-opened include_new_line path disk content e =
    ap (λ x. some (lines_of (ending include_new_line) [] x)) (content_of_found path disk content e)

-- The lines that write_lines writes with line feeds to a file that the system permits are the lines that a
-- later read_lines gives, with line feeds if they are asked for, but for the empty lines at the start,
-- which are lost, and where no line is left, one empty line is read.
pub fetch-save_lines :
    (include_new_line : Bool) (permits : Text → Bool) (path : Text) (lines : List Text)
    (disk : Disk)
    → permits path ≡ true
    → All Line lines
    → fetch_lines include_new_line permits path (save_lines permits path lines disk)
      ≡ some (map (λ line. line ++ ending include_new_line) (kept lines))
fetch-save_lines include_new_line permits path lines disk h hs =
    let content = terminated (kept lines) in
    let disk' = assign path content disk in
    let found : find path disk' ≡ some content = find-assign_same path content disk in
    rw
      (
        save_lines,
        open-truncating permits path disk h,
        write_lines-opened path lines disk,
        fetch_lines,
        open-reading permits path disk' content h found,
      )
      (read_lines-opened include_new_line path disk' content found
        ∙ ap some (lines_of-terminated (ending include_new_line) (kept lines) (kept-Line lines hs)))
