-- ===== src/Utilities/Converter/Pieces.antt =====
-- What split and replace2 give.
use mathlib.Core.List.{append_assoc, append-nil, flatten}
use cpp_toolkit.Prelude.{
  ℕ, zero, suc, ◌+◌, ◌-◌, ◌≤◌, ◌<◌, ◌≡◌, ◌≢◌, refl, sym, ap, ◌∙◌, arith, Option, none, some, List,
  [], ◌∷◌, ◌++◌, nat_eq, length, drop,
}
use cpp_toolkit.Utilities.Converter.{
  starts_with, index_of, find, substr, push_piece, split_loop, split_rest, split, replace_loop,
  replace_rest, replace2,
}
use cpp_toolkit.Utilities.Converter.Places.{find-Found, Found-next}

flatten-last :
    (result : List (List ℕ)) (temp : List ℕ)
    → flatten (result ++ (temp ∷ [])) ≡ flatten result ++ temp
unfolding flatten
flatten-last [] temp = append-nil temp
flatten-last (piece ∷ result) temp =
    ap (◌++◌ piece) (flatten-last result temp) ∙ sym (append_assoc piece (flatten result) temp)

flatten-push_piece :
    (result : List (List ℕ)) (temp : List ℕ)
    → flatten (push_piece result temp) ≡ flatten result ++ temp
unfolding push_piece
flatten-push_piece result [] = sym (append-nil (flatten result))
flatten-push_piece result (c ∷ temp) = flatten-last result (c ∷ temp)

split_miss :
    (fuel : ℕ) (source token : List ℕ) (last_offset : ℕ) (pieces : List (List ℕ))
    → find source token last_offset ≡ none
    → split_loop (suc fuel) source token last_offset pieces ≡ some (last_offset, pieces)
unfolding split_loop
split_miss fuel source token last_offset pieces e = rw (split_loop, e) refl

split_hit :
    (fuel : ℕ) (source token : List ℕ) (last_offset : ℕ) (pieces : List (List ℕ)) (offset : ℕ)
    → find source token last_offset ≡ some offset
    → split_loop (suc fuel) source token last_offset pieces
      ≡ split_loop fuel source token
          (offset + length token)
          (push_piece pieces (substr source last_offset (offset - last_offset)))
unfolding split_loop
split_hit fuel source token last_offset pieces offset e = rw (split_loop, e) refl

replace_miss :
    (fuel : ℕ) (source token target : List ℕ) (last_offset : ℕ) (text : List ℕ)
    → find source token last_offset ≡ none
    → replace_loop (suc fuel) source token target last_offset text ≡ some (last_offset, text)
unfolding replace_loop
replace_miss fuel source token target last_offset text e = rw (replace_loop, e) refl

replace_hit :
    (fuel : ℕ) (source token target : List ℕ) (last_offset : ℕ) (text : List ℕ) (offset : ℕ)
    → find source token last_offset ≡ some offset
    → replace_loop (suc fuel) source token target last_offset text
      ≡ replace_loop fuel source token target
          (offset + length token)
          (text ++ (substr source last_offset (offset - last_offset) ++ target))
unfolding replace_loop
replace_hit fuel source token target last_offset text offset e = rw (replace_loop, e) refl

-- The two loops side by side, with an empty target.
abbrev IsSame : Option (ℕ × List (List ℕ)) → Option (ℕ × List ℕ) → Type 0
IsSame none none = Unit {0}
IsSame none (some found) = ⊥
IsSame (some found) none = ⊥
IsSame (some (l, pieces)) (some (k, text)) = (l ≡ k) × (flatten pieces ≡ text)

loops-IsSame :
    (fuel : ℕ) (source token : List ℕ) (last_offset : ℕ) (pieces : List (List ℕ)) (text : List ℕ)
    → flatten pieces ≡ text
    → IsSame
        (split_loop fuel source token last_offset pieces)
        (replace_loop fuel source token [] last_offset text)
unfolding split_loop replace_loop
loops-IsSame zero source token last_offset pieces text h = tt
loops-IsSame (suc fuel) source token last_offset pieces text h =
    go (find source token last_offset) refl λ offset.
      let temp = substr source last_offset (offset - last_offset) in
      loops-IsSame fuel source token (offset + length token) (push_piece pieces temp)
        (text ++ (temp ++ []))
        (flatten-push_piece pieces temp
          ∙ (ap (λ x. x ++ temp) h ∙ ap (◌++◌ text) (sym (append-nil temp))))
  where
    go :
        (r : Option ℕ)
        → find source token last_offset ≡ r
        → ((offset : ℕ)
            → IsSame
                (split_loop fuel source token
                  (offset + length token)
                  (push_piece pieces (substr source last_offset (offset - last_offset))))
                (replace_loop fuel source token []
                  (offset + length token)
                  (text ++ (substr source last_offset (offset - last_offset) ++ []))))
        → IsSame
            (split_loop (suc fuel) source token last_offset pieces)
            (replace_loop (suc fuel) source token [] last_offset text)
    go none e later =
        rw
          (
            split_miss fuel source token last_offset pieces e,
            replace_miss fuel source token [] last_offset text e,
          )
          (refl, h)
    go (some offset) e later =
        rw
          (
            split_hit fuel source token last_offset pieces offset e,
            replace_hit fuel source token [] last_offset text offset e,
          )
          (later offset)

-- The loop of replace2 ends, and what it has copied and what is left are the source.
abbrev Rebuilds : List ℕ → Option (ℕ × List ℕ) → Type 0
Rebuilds source none = ⊥
Rebuilds source (some (l, text)) = text ++ drop l source ≡ source

loop-Rebuilds :
    (fuel : ℕ) (source token : List ℕ) (last_offset : ℕ) (text : List ℕ)
    → length token ≢ 0
    → last_offset ≤ length source
    → length source - last_offset < fuel
    → text ++ drop last_offset source ≡ source
    → Rebuilds source (replace_loop fuel source token token last_offset text)
unfolding replace_loop
loop-Rebuilds zero source token last_offset text nonempty inside enough h = absurd (omega arith)
loop-Rebuilds (suc fuel) source token last_offset text nonempty inside enough h =
    go (find source token last_offset) refl λ offset e.
      let f = find-Found source token last_offset offset e in
      let bounds = Found-next source token last_offset offset nonempty inside f in
      let temp = substr source last_offset (offset - last_offset) in
      let after = drop (offset + length token) source in
      loop-Rebuilds fuel source token (offset + length token) (text ++ (temp ++ token)) nonempty
        bounds.1 (omega (arith, bounds.0, bounds.1))
        (append_assoc text (temp ++ token) after
          ∙ (ap (◌++◌ text) (append_assoc temp token after ∙ f.cut) ∙ h))
  where
    go :
        (r : Option ℕ)
        → find source token last_offset ≡ r
        → ((offset : ℕ)
            → find source token last_offset ≡ some offset
            → Rebuilds source (
                replace_loop fuel source token token
                  (offset + length token)
                  (text ++ (substr source last_offset (offset - last_offset) ++ token))))
        → Rebuilds source (replace_loop (suc fuel) source token token last_offset text)
    go none e later = rw (replace_miss fuel source token token last_offset text e) h
    go (some offset) e later =
        rw (replace_hit fuel source token token last_offset text offset e) (later offset e)

abbrev Ends : Option (ℕ × List ℕ) → Type 0
Ends none = ⊥
Ends (some found) = Unit {0}

loop-Ends :
    (fuel : ℕ) (source token target : List ℕ) (last_offset : ℕ) (text : List ℕ)
    → length token ≢ 0
    → last_offset ≤ length source
    → length source - last_offset < fuel
    → Ends (replace_loop fuel source token target last_offset text)
unfolding replace_loop
loop-Ends zero source token target last_offset text nonempty inside enough = absurd (omega arith)
loop-Ends (suc fuel) source token target last_offset text nonempty inside enough =
    go (find source token last_offset) refl λ offset e.
      let f = find-Found source token last_offset offset e in
      let bounds = Found-next source token last_offset offset nonempty inside f in
      loop-Ends fuel source token target (offset + length token)
        (text ++ (substr source last_offset (offset - last_offset) ++ target)) nonempty bounds.1
        (omega (arith, bounds.0, bounds.1))
  where
    go :
        (r : Option ℕ)
        → find source token last_offset ≡ r
        → ((offset : ℕ)
            → find source token last_offset ≡ some offset
            → Ends (
                replace_loop fuel source token target
                  (offset + length token)
                  (text ++ (substr source last_offset (offset - last_offset) ++ target))))
        → Ends (replace_loop (suc fuel) source token target last_offset text)
    go none e later = rw (replace_miss fuel source token target last_offset text e) tt
    go (some offset) e later =
        rw (replace_hit fuel source token target last_offset text offset e) (later offset e)

-- A token that is not empty, replaced by itself: replace2 returns, and gives the source.
pub replace2_same :
    (source token : List ℕ) → length token ≢ 0 → replace2 source token token ≡ some source
unfolding replace2 replace_rest
replace2_same [] token nonempty = refl
replace2_same (s ∷ source) token nonempty =
    go (replace_loop (suc (length (s ∷ source))) (s ∷ source) token token 0 []) refl (
      loop-Rebuilds (suc (length (s ∷ source))) (s ∷ source) token 0 [] nonempty (omega arith)
        (omega arith) refl)
  where
    go :
        (r : Option (ℕ × List ℕ))
        → replace_loop (suc (length (s ∷ source))) (s ∷ source) token token 0 [] ≡ r
        → Rebuilds (s ∷ source) r
        → replace2 (s ∷ source) token token ≡ some (s ∷ source)
    go none e h = absurd h
    go (some (zero, text)) e h = rw (replace2, e) refl
    go (some (suc l, text)) e h = rw (replace2, e) (ap some h)

-- With a token that is not empty, split returns, and its pieces put together are what replace2 leaves
-- when it replaces the token by nothing.
pub split-replace2 :
    (source token : List ℕ)
    → length token ≢ 0
    → (pieces : List (List ℕ)) × (split source token ≡ some pieces)
      × (replace2 source token [] ≡ some (flatten pieces))
unfolding replace2 replace_rest split split_rest flatten
split-replace2 [] token nonempty = ([], refl, refl)
split-replace2 (s ∷ source) token nonempty =
    go (split_loop (suc (length (s ∷ source))) (s ∷ source) token 0 [])
      (replace_loop (suc (length (s ∷ source))) (s ∷ source) token [] 0 []) refl refl
      (loops-IsSame (suc (length (s ∷ source))) (s ∷ source) token 0 [] [] refl)
      (loop-Ends (suc (length (s ∷ source))) (s ∷ source) token [] 0 [] nonempty (omega arith)
        (omega arith))
  where
    go :
        (p : Option (ℕ × List (List ℕ)))
        → (q : Option (ℕ × List ℕ))
        → split_loop (suc (length (s ∷ source))) (s ∷ source) token 0 [] ≡ p
        → replace_loop (suc (length (s ∷ source))) (s ∷ source) token [] 0 [] ≡ q
        → IsSame p q
        → Ends q
        → (pieces : List (List ℕ)) × (split (s ∷ source) token ≡ some pieces)
          × (replace2 (s ∷ source) token [] ≡ some (flatten pieces))
    go p none e f h ends = absurd ends
    go none (some found) e f h ends = absurd h
    go (some (zero, pieces)) (some (zero, text)) e f h ends = (
      (s ∷ source) ∷ [],
      rw (split, e) refl,
      rw (replace2, f) (ap some (sym (append-nil (s ∷ source)))),
    )
    go (some (suc l, pieces)) (some (suc k, text)) e f h ends =
        let left = drop (suc k) (s ∷ source) in
        (
          push_piece pieces (drop (suc l) (s ∷ source)),
          rw (split, e) refl,
          rw (replace2, f)
              (ap some (
                ap (λ x. x ++ left) (sym h.1)
                ∙ sym (flatten-push_piece pieces left)
                ∙ ap (λ n. flatten (push_piece pieces (drop n (s ∷ source)))) (sym h.0))),
        )
    go (some (zero, pieces)) (some (suc k, text)) e f h ends = absurd (omega (arith, h.0))
    go (some (suc l, pieces)) (some (zero, text)) e f h ends = absurd (omega (arith, h.0))

find_empty : (source : List ℕ) → find source [] 0 ≡ some 0
unfolding find index_of starts_with
find_empty [] = refl
find_empty (s ∷ source) = ground arith

-- With an empty token the loop of split is never over, whatever the number of rounds: the empty token
-- is found at the start again and again.
pub split_loop_endless :
    (fuel : ℕ) (source : List ℕ) (pieces : List (List ℕ))
    → split_loop fuel source [] 0 pieces ≡ none
unfolding split_loop push_piece substr
split_loop_endless zero source pieces = refl
split_loop_endless (suc fuel) source pieces =
    split_hit fuel source [] 0 pieces 0 (find_empty source) ∙ split_loop_endless fuel source pieces
