-- ===== src/Utilities/Folder/Search.antt =====
-- What get_files finds with some extensions, and what it finds with all.
use cpp_toolkit.Prelude.{
  ◌≡◌, refl, sym, ap, ◌∙◌, arith, Bool, true, false, none, some, List, [], ◌∷◌, ◌++◌, if◌then◌else◌,
}
use mathlib.Core.Path.{ap₂}
use mathlib.Core.Option.{map}
use cpp_toolkit.Utilities.File.{Text}
use cpp_toolkit.Utilities.Folder.{
  Paths, Entries, end, file, folder, other, Place, missing, no_folder, listing, Found, selected,
  files_of, get_files,
}

abbrev pub retain : (Text → Bool) → List Text → List Text
retain test [] = []
retain test (text ∷ texts) = if test text then text ∷ retain test texts else retain test texts

-- What get_files would find of all files.
abbrev pub retain_found : (Text → Bool) → Found → Found
retain_found test (none, message) = (none, message)
retain_found test (some files, message) = (some (retain test files), message)

retain-append :
    (test : Text → Bool) (xs ys : List Text)
    → retain test (xs ++ ys) ≡ retain test xs ++ retain test ys
retain-append test [] ys = refl
retain-append test (x ∷ xs) ys = ground (arith, retain-append test xs ys)

module _ (paths : Paths) (extensions : List Text) where
  files_of-retain :
      (target : Text) (search_sub_folder : Bool) (entries : Entries)
      → files_of paths target search_sub_folder extensions entries
        ≡ retain (selected paths extensions) (files_of paths target search_sub_folder [] entries)
  unfolding files_of
  files_of-retain target deep end = refl
  files_of-retain target deep (other name entries) = files_of-retain target deep entries
  files_of-retain target deep (file name entries) = rw (files_of-retain target deep entries) refl
  files_of-retain target false (folder name inner entries) = files_of-retain target false entries
  files_of-retain target true (folder name inner entries) =
      let path = paths.append target name in
      ap₂ ◌++◌ (files_of-retain path true inner) (files_of-retain target true entries)
      ∙ sym (
          retain-append (selected paths extensions) (files_of paths path true [] inner)
            (files_of paths target true [] entries))

  -- get_files with extensions finds those of the files without that have one of them, in the same
  -- order, below any target, with sub folders or without, and fails or throws where it does without.
  pub get_files-retain :
      (target : Text) (place : Place) (search_sub_folder : Bool)
      → get_files paths target place search_sub_folder extensions
        ≡ map
            (retain_found (selected paths extensions))
            (get_files paths target place search_sub_folder [])
  unfolding get_files
  get_files-retain [] place deep = refl
  get_files-retain (c ∷ target) missing deep = refl
  get_files-retain (c ∷ target) no_folder deep = refl
  get_files-retain (c ∷ target) (listing entries) deep =
      ap (λ x. some (some x, none)) (files_of-retain (c ∷ target) deep entries)
