-- ===== src/Utilities/Logger/Lines.antt =====
-- The lines that a log file keeps, and those that leave it.
use mathlib.Core.List.{append-nil, append_assoc, flatten}
use cpp_toolkit.Prelude.{
  ℕ, ◌+◌, ◌-◌, take, drop, take-append, drop-append, ◌<◌, ◌≡◌, refl, sym, ap, ◌∙◌, arith, Bool,
  true, false, some, List, [], ◌∷◌, ◌++◌, ◌==◌, bytes_eq, nat_eq, length, length-append, length-map,
  All, map, min, max, leb, Bool-cases, inl, inr,
}
use cpp_toolkit.Prelude.Map.{find, assign, find-assign_same}
use cpp_toolkit.Utilities.File.{
  Disk, Text, reading, truncating, make_file, accumulate, lines_of, write_lines, read_lines, close,
  write,
}
use cpp_toolkit.Utilities.File.Bytes.{
  closed, opened, open-truncating, open-reading, write-opened, content_of_found,
}
use cpp_toolkit.Utilities.File.Lines.{Line, terminated, lines_of-terminated}
use cpp_toolkit.Utilities.Logger.{
  Logger, no_log, log_eq, keep_lines, old_lines, write_all, write_file,
}

-- What is removed and what is kept are the old lines and the new ones, in their order.
keep_lines_all :
    (limit : ℕ) (lines messages : List Text)
    → let (removed, kept) = keep_lines limit lines messages in removed ++ kept ≡ lines ++ messages
unfolding keep_lines
keep_lines_all limit lines [] = sym (append-nil lines)
keep_lines_all limit [] (m ∷ messages) = keep_lines_all limit (m ∷ []) messages
keep_lines_all limit (line ∷ lines) (m ∷ messages) =
    elim (Bool-cases (leb limit (length (line ∷ lines)))) [
      | inl full ↦ rw full (
          ap (◌∷◌ line) (
            keep_lines_all limit (lines ++ (m ∷ [])) messages
            ∙ append_assoc lines (m ∷ []) messages))
      | inr room ↦ rw room (
          keep_lines_all limit (line ∷ lines ++ (m ∷ [])) messages
          ∙ append_assoc (line ∷ lines) (m ∷ []) messages)
    ]

-- How many lines are kept.
length-keep_lines :
    (limit : ℕ) (lines messages : List Text)
    → 0 < limit
    → length (keep_lines limit lines messages).1
      ≡ max (length lines) (min limit (length lines + length messages))
unfolding keep_lines
length-keep_lines limit lines [] h = omega arith
length-keep_lines limit [] (m ∷ messages) h =
    omega (arith, length-keep_lines limit (m ∷ []) messages h)
length-keep_lines limit (line ∷ lines) (m ∷ messages) h = ground (
  arith,
  length-append lines (m ∷ []),
  length-keep_lines limit (lines ++ (m ∷ [])) messages h,
  length-keep_lines limit (line ∷ lines ++ (m ∷ [])) messages h,
)

accumulate-flatten : (a : Text) (lines : List Text) → accumulate false a lines ≡ a ++ flatten lines
unfolding accumulate flatten
accumulate-flatten a [] = sym (append-nil a)
accumulate-flatten a (line ∷ lines) =
    accumulate-flatten (a ++ line) lines ∙ append_assoc a line (flatten lines)

flatten_append : (xs ys : List Text) → flatten (xs ++ ys) ≡ flatten xs ++ flatten ys
unfolding flatten
flatten_append [] ys = refl
flatten_append (x ∷ xs) ys =
    ap (◌++◌ x) (flatten_append xs ys) ∙ sym (append_assoc x (flatten xs) (flatten ys))

-- The lines of a text as read_lines gives them.
abbrev pub with_feeds : List Text → List Text
with_feeds lines = map (λ line. line ++ (10 ∷ [])) lines

flatten-with_feeds : (lines : List Text) → flatten (with_feeds lines) ≡ terminated lines
unfolding flatten
flatten-with_feeds [] = refl
flatten-with_feeds (line ∷ lines) =
    append_assoc line (10 ∷ []) (flatten (with_feeds lines))
    ∙ ap (λ x. line ++ 10 ∷ x) (flatten-with_feeds lines)

module _ (permits : Text → Bool) (path : Text) (permitted : permits path ≡ true) where
  read_opened :
      (lines : List Text) (disk : Disk)
      → find path disk ≡ some (terminated lines)
      → All Line lines
      → (close (read_lines true disk (opened reading path 0)).0 ≡ closed)
        × ((read_lines true disk (opened reading path 0)).1 ≡ some (with_feeds lines))
  unfolding read_lines close make_file
  read_opened lines disk found each = (
    refl,
    ap (λ x. some (lines_of (10 ∷ []) [] x)) (content_of_found path disk (terminated lines) found)
        ∙ ap some (lines_of-terminated (10 ∷ []) lines each),
  )

  old_lines_read :
      (lines : List Text) (disk : Disk)
      → find path disk ≡ some (terminated lines)
      → All Line lines
      → old_lines permits path disk ≡ (closed, with_feeds lines)
  unfolding old_lines
  old_lines_read lines disk found each =
      let (shut, read) = read_opened lines disk found each in
      rw (old_lines, open-reading permits path disk (terminated lines) permitted found, read, shut)
        refl

  write_lines-flatten :
      (lines : List Text) (disk : Disk)
      → (write_lines lines false (assign path [] disk) (opened truncating path 0)).0
        ≡ assign path (flatten lines) disk
  unfolding write_lines
  write_lines-flatten lines disk =
      ap (λ x. (write x (assign path [] disk) (opened truncating path 0)).0)
        (append-nil (accumulate false [] lines) ∙ accumulate-flatten [] lines)
      ∙ ap (λ x. x.0) (write-opened path (flatten lines) [] disk)

  write_all-flatten :
      (lines : List Text) (disk : Disk)
      → write_all permits path lines disk closed ≡ assign path (flatten lines) disk
  write_all-flatten lines disk =
      rw (write_all, open-truncating permits path disk permitted) (write_lines-flatten lines disk)

  write_file-kept :
      (logger : Logger) (lines : List Text) (message : Text) (messages : List Text) (disk : Disk)
      → (logger.file_mode == no_log) ≡ false
      → 0 < logger.max_lines
      → find path disk ≡ some (terminated lines)
      → All Line lines
      → let (removed, kept) = keep_lines logger.max_lines (with_feeds lines) (message ∷ messages) in
        write_file permits logger path (message ∷ messages) disk
        ≡ (assign path (flatten kept) disk, removed)
  unfolding write_file
  write_file-kept logger lines message messages disk on bounded found each =
      let some_lines : (logger.max_lines == 0) ≡ false = ground arith in
      let (removed, kept) = keep_lines logger.max_lines (with_feeds lines) (message ∷ messages) in
      rw (write_file, on, some_lines, old_lines_read lines disk found each)
        (ap (λ d. (d, removed)) (write_all-flatten kept disk))

  -- With a bound on its lines, a log that goes to a file, and a file that the system permits and whose lines
  -- each end with a line feed: of the old lines with the new ones behind
  -- them, write_file takes the first away and leaves the others in the file, so many that the bound is left,
  -- fewer if there are fewer, and as many as there were if those were more.
  pub write_file_keeps :
      (logger : Logger) (lines : List Text) (message : Text) (messages : List Text) (disk : Disk)
      → (logger.file_mode == no_log) ≡ false
      → 0 < logger.max_lines
      → find path disk ≡ some (terminated lines)
      → All Line lines
      → let (disk', removed) = write_file permits logger path (message ∷ messages) disk in
        let all = with_feeds lines ++ (message ∷ messages) in
        let gone = length all - max (length lines) (min logger.max_lines (length all)) in
        (removed ≡ take gone all) × (find path disk' ≡ some (flatten (drop gone all)))
  unfolding write_file
  write_file_keeps logger lines message messages disk on bounded found each =
      let new = message ∷ messages in
      let (removed, kept) = keep_lines logger.max_lines (with_feeds lines) new in
      let all = with_feeds lines ++ new in
      let same_length = length-map (λ line. line ++ (10 ∷ [])) lines in
      let (first, last) =
        cut_at removed kept all (keep_lines_all logger.max_lines (with_feeds lines) new)
          (length all - max (length lines) (min logger.max_lines (length all)))
          (left_out (length removed) (length kept) (length all) (length lines) (length new)
            (length (with_feeds lines)) logger.max_lines same_length
            (sym (length-append removed kept)
              ∙ ap length (keep_lines_all logger.max_lines (with_feeds lines) new))
            (length-append (with_feeds lines) new)
            (length-keep_lines logger.max_lines (with_feeds lines) new bounded)) in
      rw (write_file-kept logger lines message messages disk on bounded found each)
        (first, find-assign_same path (flatten kept) disk ∙ ap (λ k. some (flatten k)) last)
    where
      cut_at :
          (removed kept all : List Text)
          → removed ++ kept ≡ all
          → (n : ℕ) → n ≡ length removed
          → (removed ≡ take n all) × (kept ≡ drop n all)
      cut_at removed kept all e n m = (
        sym (take-append n removed kept m) ∙ ap (take n) e,
        sym (drop-append n removed kept m) ∙ ap (drop n) e,
      )

      left_out :
          (removed kept all old new fed bound : ℕ)
          → fed ≡ old
          → removed + kept ≡ all
          → all ≡ fed + new
          → kept ≡ max fed (min bound (fed + new))
          → all - max old (min bound all) ≡ removed
      left_out removed kept all old new fed bound e f g h = omega arith
