-- ===== src/Utilities/ArgumentParser/Fields.antt =====
-- The loop of to_array over the matches of its regular expression, against a splitting at the commas.
use cpp_toolkit.Prelude.{
  ℕ, zero, suc, ◌≤◌, ◌<◌, ◌≡◌, refl, ◌∙◌, ap, arith, Bool, true, false, Option, none, some, List,
  [], ◌∷◌, ◌++◌, nat_eq, length, Bool-cases, Option-cases, inl, inr,
}
use mathlib.Core.List.{append_assoc, append-nil}
use cpp_toolkit.Utilities.Combiner.{◌>>=◌}
use cpp_toolkit.Utilities.ArgumentParser.{
  Text, not_comma, take_while, drop_while, match_here, match_loop, fields,
}
use cpp_toolkit.Utilities.ArgumentParser.Matches.{
  trim, run_of, after, trimmed_cons, comma_run, match_here_lem,
}

abbrev pub keep : Text → List Text
keep [] = []
keep (c ∷ run) = trim (c ∷ run) ∷ []

-- The spans between commas that are not empty, trimmed; `run` is the one that has begun.
unfoldable pub spans : Text → Text → List Text
spans run [] = keep run
spans run (c ∷ text) = elim (not_comma c) [
  | true ↦ spans (run ++ (c ∷ [])) text
  | false ↦ keep run ++ spans [] text
]

unfoldable pub pieces : Text → List Text
unfolding spans
pieces text = spans [] text

-- What spans makes of a text whose first run has begun.
abbrev pieces_behind : Text → List Text
pieces_behind [] = []
pieces_behind (c ∷ text) = pieces text

spans_lem :
    (run text : Text) → spans run text ≡ keep (run ++ run_of text) ++ pieces_behind (after text)
unfolding spans pieces take_while drop_while
spans_lem run [] = rw (append-nil, append-nil) refl
spans_lem run (c ∷ text) = elim (Bool-cases (not_comma c)) [
  | inl h ↦
      rw (h, spans)
        (spans_lem (run ++ (c ∷ [])) text
          ∙ ap (λ r. keep r ++ pieces_behind (after text))
              (append_assoc run (c ∷ []) (run_of text)))
  | inr h ↦ rw (h, spans) (rw append-nil refl)
]

pieces_lem : (text : Text) → pieces text ≡ keep (run_of text) ++ pieces_behind (after text)
unfolding pieces
pieces_lem text = spans_lem [] text

spans_comma : (c : ℕ) (text : Text) → not_comma c ≡ false → spans [] (c ∷ text) ≡ spans [] text
unfolding spans
spans_comma c text h = rw (h, spans) refl

-- Behind a run comes the end or a comma, which begins nothing.
pieces-after : (text : Text) → pieces (after text) ≡ pieces_behind (after text)
unfolding pieces spans drop_while
pieces-after [] = refl
pieces-after (c ∷ text) = elim (Bool-cases (not_comma c)) [
  | inl h ↦ rw h (pieces-after text)
  | inr h ↦ rw h (spans_comma c text h)
]

drop_while-le : (p : ℕ → Bool) (text : Text) → length (drop_while p text) ≤ length text
unfolding drop_while
drop_while-le p [] = omega arith
drop_while-le p (c ∷ text) = elim (Bool-cases (p c)) [
  | inl h ↦ rw h (omega (arith, drop_while-le p text))
  | inr h ↦ rw h (omega arith)
]

after_cons : (c : ℕ) (text : Text) → not_comma c ≡ true → after (c ∷ text) ≡ after text
unfolding drop_while
after_cons c text h = rw h refl

run_cons : (c : ℕ) (text : Text) → not_comma c ≡ true → run_of (c ∷ text) ≡ c ∷ run_of text
unfolding take_while
run_cons c text h = rw h refl

-- What the loop does with what is found at its place.
go_on : (Text → Option (List Text)) → Text → Option (Text × Text) → Option (List Text)
go_on loop text none = loop text
go_on loop text (some found) = loop found.1 >>= (λ groups. some (found.0 ∷ groups))

loop_round :
    (fuel c : ℕ) (text : Text)
    → match_loop (suc fuel) (c ∷ text) ≡ go_on (match_loop fuel) text (match_here (c ∷ text))
unfolding match_loop go_on
loop_round fuel c text = elim (Option-cases (match_here (c ∷ text))) [
  | inl h ↦ rw (h, match_loop) refl
  | inr (found, h) ↦ rw (h, match_loop) refl
]

pieces_cons :
    (c : ℕ) (text : Text)
    → not_comma c ≡ true
    → pieces (c ∷ text) ≡ trim (c ∷ run_of text) ∷ pieces (after text)
pieces_cons c text h =
    pieces_lem (c ∷ text) ∙ rw (run_cons c text h, after_cons c text h, pieces-after text) refl

loop_end : (fuel : ℕ) → match_loop (suc fuel) [] ≡ some (pieces [])
unfolding match_loop pieces spans
loop_end fuel = refl

loop_at_comma :
    (fuel c : ℕ) (text : Text)
    → not_comma c ≡ false
    → match_loop fuel text ≡ some (pieces text)
    → match_loop (suc fuel) (c ∷ text) ≡ some (pieces (c ∷ text))
unfolding go_on pieces
loop_at_comma fuel c text h ih =
    loop_round fuel c text
    ∙ rw (match_here_lem (c ∷ text), comma_run c text h, spans_comma c text h) ih

loop_at_run :
    (fuel c : ℕ) (text : Text)
    → not_comma c ≡ true
    → match_loop fuel (after text) ≡ some (pieces (after text))
    → match_loop (suc fuel) (c ∷ text) ≡ some (pieces (c ∷ text))
unfolding go_on
loop_at_run fuel c text h ih =
    loop_round fuel c text
    ∙ rw (match_here_lem (c ∷ text), trimmed_cons c text h, ih, pieces_cons c text h) refl

match_loop_lem :
    (fuel : ℕ) (text : Text) → length text < fuel → match_loop fuel text ≡ some (pieces text)
match_loop_lem zero text h = absurd (omega arith)
match_loop_lem (suc fuel) [] h = loop_end fuel
match_loop_lem (suc fuel) (c ∷ text) h = elim (Bool-cases (not_comma c)) [
  | inl on ↦
      loop_at_run fuel c text on
        (match_loop_lem fuel (after text) (omega (arith, drop_while-le not_comma text)))
  | inr at_comma ↦ loop_at_comma fuel c text at_comma (match_loop_lem fuel text (omega arith))
]

-- The loop of to_array ends, and gives what a splitting at the commas gives: the pieces that are not empty,
-- each without its leading spaces, but for the last one where it has nothing else. Trailing spaces stay.
pub fields_lem : (text : Text) → fields text ≡ some (pieces text)
unfolding fields
fields_lem text = match_loop_lem (suc (length text)) text (omega arith)
