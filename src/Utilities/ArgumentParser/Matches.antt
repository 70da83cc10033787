-- ===== src/Utilities/ArgumentParser/Matches.antt =====
-- A match of the regular expression of to_array, against the text up to a comma without its leading spaces.
use cpp_toolkit.Prelude.{
  ℕ, zero, suc, ◌≡◌, refl, ◌∙◌, ap, arith, true, false, Option, none, some, [], ◌∷◌, if◌then◌else◌,
  nat_eq, length, is_empty, drop, Bool-cases, inl, inr,
}
use cpp_toolkit.Utilities.ArgumentParser.{
  Text, is_space, not_comma, take_while, drop_while, match_group, match_here,
}

-- A run without its leading spaces; of spaces alone the last one stays.
unfoldable pub trim : Text → Text
trim [] = []
trim (c ∷ []) = c ∷ []
trim (c ∷ d ∷ cs) = let rest = trim (d ∷ cs) in if is_space c then rest else c ∷ d ∷ cs

-- The run at the start of a text, and what is behind it.
abbrev pub run_of : Text → Text
run_of text = take_while not_comma text

abbrev pub after : Text → Text
after text = drop_while not_comma text

space_not_comma : (c : ℕ) → is_space c ≡ true → not_comma c ≡ true
space_not_comma c h = ground arith

after_no_space : (text : Text) → drop_while is_space (after text) ≡ after text
unfolding drop_while
after_no_space [] = refl
after_no_space (c ∷ text) = elim (Bool-cases (not_comma c)) [
  | inl h ↦ rw h (after_no_space text)
  | inr h ↦ ground arith
]

abbrev matched : Text → Option (Text × Text)
matched text = if is_empty (run_of text) then none else some (run_of text, after text)

group_zero : (text : Text) → match_group zero text ≡ matched text
unfolding match_group
group_zero text = rw (after_no_space text) refl

or_else : Option (Text × Text) → Option (Text × Text) → Option (Text × Text)
or_else none other = other
or_else (some found) other = some found

group_suc :
    (n c : ℕ) (text : Text)
    → match_group (suc n) (c ∷ text) ≡ or_else (match_group n text) (match_group zero (c ∷ text))
unfolding match_group or_else
group_suc zero c text = elim (Bool-cases (is_empty (run_of text))) [
  | inl h ↦ rw h refl
  | inr h ↦ rw h refl
]
group_suc (suc n) c text = elim (Bool-cases (is_empty (run_of (drop (suc n) text)))) [
  | inl h ↦ rw h (group_suc n c text)
  | inr h ↦ rw h refl
]

abbrev pub trimmed : Text → Option (Text × Text)
trimmed text = if is_empty (run_of text) then none else some (trim (run_of text), after text)

trim_plain : (c : ℕ) (cs : Text) → is_space c ≡ false → trim (c ∷ cs) ≡ c ∷ cs
unfolding trim
trim_plain c [] h = refl
trim_plain c (d ∷ cs) h = rw h refl

trim_space : (c : ℕ) (cs : Text) → is_space c ≡ true → is_empty cs ≡ false → trim (c ∷ cs) ≡ trim cs
unfolding trim
trim_space c [] h e = cc
trim_space c (d ∷ cs) h e = rw h refl

run_single : (cs : Text) → is_empty cs ≡ true → cs ≡ []
run_single [] h = refl
run_single (c ∷ cs) h = cc

match_here_space :
    (c : ℕ) (text : Text)
    → is_space c ≡ true
    → match_here (c ∷ text) ≡ or_else (match_here text) (match_group zero (c ∷ text))
unfolding match_here take_while
match_here_space c text h = rw h (group_suc (length (take_while is_space text)) c text)

match_here_plain :
    (c : ℕ) (text : Text) → is_space c ≡ false → match_here (c ∷ text) ≡ match_group zero (c ∷ text)
unfolding match_here take_while
match_here_plain c text h = rw h refl

matched_cons :
    (c : ℕ) (text : Text)
    → not_comma c ≡ true
    → matched (c ∷ text) ≡ some (c ∷ run_of text, after text)
unfolding take_while drop_while
matched_cons c text h = rw h refl

pub trimmed_cons :
    (c : ℕ) (text : Text)
    → not_comma c ≡ true
    → trimmed (c ∷ text) ≡ some (trim (c ∷ run_of text), after text)
unfolding take_while drop_while
trimmed_cons c text h = rw h refl

trimmed_space :
    (c : ℕ) (text : Text)
    → is_space c ≡ true
    → or_else (trimmed text) (matched (c ∷ text)) ≡ trimmed (c ∷ text)
unfolding or_else trim
trimmed_space c text h =
    let on = space_not_comma c h in
    elim (Bool-cases (is_empty (run_of text))) [
      | inl e ↦
          rw (e, trimmed_cons c text on, matched_cons c text on, run_single (run_of text) e) refl
      | inr e ↦ rw (e, trimmed_cons c text on, trim_space c (run_of text) h e) refl
    ]

pub comma_run : (c : ℕ) (text : Text) → not_comma c ≡ false → run_of (c ∷ text) ≡ []
unfolding take_while
comma_run c text h = rw h refl

plain_trimmed : (c : ℕ) (text : Text) → is_space c ≡ false → matched (c ∷ text) ≡ trimmed (c ∷ text)
plain_trimmed c text h = elim (Bool-cases (not_comma c)) [
  | inl on ↦ rw (matched_cons c text on, trimmed_cons c text on, trim_plain c (run_of text) h) refl
  | inr at_comma ↦ stops at_comma
]
  where
    stops : not_comma c ≡ false → matched (c ∷ text) ≡ trimmed (c ∷ text)
    stops at_comma = rw (comma_run c text at_comma) refl

match_here_cons :
    (c : ℕ) (text : Text)
    → match_here text ≡ trimmed text
    → match_here (c ∷ text) ≡ trimmed (c ∷ text)
match_here_cons c text ih = elim (Bool-cases (is_space c)) [
  | inl h ↦
      match_here_space c text h
      ∙ ap (λ found. or_else found (match_group zero (c ∷ text))) ih
      ∙ ap (or_else (trimmed text)) (group_zero (c ∷ text))
      ∙ trimmed_space c text h
  | inr h ↦ match_here_plain c text h ∙ group_zero (c ∷ text) ∙ plain_trimmed c text h
]

-- A match is the run at the start of the text, trimmed.
pub match_here_lem : (text : Text) → match_here text ≡ trimmed text
unfolding match_here match_group take_while trim
match_here_lem [] = refl
match_here_lem (c ∷ text) = match_here_cons c text (match_here_lem text)
