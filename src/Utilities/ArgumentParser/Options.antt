-- ===== src/Utilities/ArgumentParser/Options.antt =====
-- What a command line says of a key, against parse.
use cpp_toolkit.Prelude.{
  ◌≡◌, ◌≢◌, ap, ◌⊎◌, inl, inr, refl, ◌∙◌, arith, Option, none, some, List, [], ◌∷◌, ◌++◌, codes,
  if◌then◌else◌, ◌==◌, bytes_eq, bytes_beq_iff, All, Option-cases,
}
use cpp_toolkit.Prelude.Map.{find, insert, find-assign, insert_new}
use cpp_toolkit.Utilities.ArgumentParser.{
  Text, Arguments, Kind, plain, help, version, option, kind, store, parse_loop, parse,
}

-- The parts of a command line: a word that is no option, a switch with the text that is kept for it, and an
-- option with the argument behind it.
pub data Token : Type 0 where
  word : Text → Token
  switch : Text → Text → Token
  setting : Text → Text → Token

-- A value may be any text, also one that looks like an option.
abbrev pub IsToken : Token → Type 0
IsToken (word t) = kind t ≡ plain
IsToken (switch t description) =
    ((kind t ≡ help) × (description ≡ codes "display help"))
    ⊎ ((kind t ≡ version) × (description ≡ codes "display version"))
IsToken (setting k v) = kind k ≡ option

pub render : List Token → List Text
render [] = []
render (word t ∷ ts) = t ∷ render ts
render (switch t description ∷ ts) = t ∷ render ts
render (setting k v ∷ ts) = k ∷ v ∷ render ts

-- At the end of the arguments an option may stand without a value.
abbrev pub IsLeft : List Text → Type 0
IsLeft [] = Unit {0}
IsLeft (k ∷ []) = kind k ≡ option
IsLeft (k ∷ v ∷ left) = ⊥

-- What is known of a key: the last setting decides, and a switch gives its description.
pub said : Option Text → Text → List Token → Option Text
said before k [] = before
said before k (word t ∷ ts) = said before k ts
said before k (switch t description ∷ ts) =
    said (elim before [ none ↦ if t == k then some description else none | some v ↦ some v ]) k ts
said before k (setting j v ∷ ts) = said (if j == k then some v else before) k ts

find-insert :
    (k j : Text) (v : Text) (m : Arguments)
    → find j (insert k v m)
      ≡ elim (find j m) [ none ↦ if k == j then some v else none | some w ↦ some w ]
unfolding insert
find-insert k j v m = elim (Option-cases (find k m)) [
  | inl new ↦ rw (new, insert) (ground (arith, find-assign k j v m, bytes_beq_iff k j))
  | inr (w, old) ↦ rw (old, insert) (ground (arith, bytes_beq_iff k j))
]

find-store :
    (k j : Text) (v : Text) (m : Arguments)
    → find j (store k v m) ≡ (if k == j then some v else find j m)
unfolding store
find-store k j v m = elim (Option-cases (find k m)) [
  | inl new ↦ ground (arith, insert_new k v m new, find-assign k j v m)
  | inr (w, old) ↦ ground (arith, find-assign k j v m)
]

loop_word :
    (t : Text) (rest : List Text) (m : Arguments)
    → kind t ≡ plain
    → parse_loop (t ∷ rest) m ≡ parse_loop rest m
unfolding parse_loop
loop_word t [] m h = rw h refl
loop_word t (v ∷ rest) m h = rw h refl

loop_help :
    (t : Text) (rest : List Text) (m : Arguments)
    → kind t ≡ help
    → parse_loop (t ∷ rest) m ≡ parse_loop rest (insert t (codes "display help") m)
unfolding parse_loop
loop_help t [] m h = rw h refl
loop_help t (v ∷ rest) m h = rw h refl

loop_version :
    (t : Text) (rest : List Text) (m : Arguments)
    → kind t ≡ version
    → parse_loop (t ∷ rest) m ≡ parse_loop rest (insert t (codes "display version") m)
unfolding parse_loop
loop_version t [] m h = rw h refl
loop_version t (v ∷ rest) m h = rw h refl

loop_setting :
    (k v : Text) (rest : List Text) (m : Arguments)
    → kind k ≡ option
    → parse_loop (k ∷ v ∷ rest) m ≡ parse_loop rest (store k v m)
unfolding parse_loop
loop_setting k v rest m h = rw h refl

loop_left : (left : List Text) (m : Arguments) → IsLeft left → parse_loop left m ≡ m
unfolding parse_loop
loop_left [] m h = refl
loop_left (k ∷ []) m h = rw h refl
loop_left (k ∷ v ∷ left) m h = absurd h

loop_switch :
    (t description : Text) (rest : List Text) (m : Arguments)
    → IsToken (switch t description)
    → parse_loop (t ∷ rest) m ≡ parse_loop rest (insert t description m)
loop_switch t description rest m (inl (h, d)) = rw d (loop_help t rest m h)
loop_switch t description rest m (inr (h, d)) = rw d (loop_version t rest m h)

loop_said :
    (ts : List Token) (left : List Text) (k : Text) (m : Arguments)
    → All IsToken ts
    → IsLeft left
    → find k (parse_loop (render ts ++ left) m) ≡ said (find k m) k ts
unfolding render said
loop_said [] left k m hs hl = rw (loop_left left m hl) refl
loop_said (word t ∷ ts) left k m (h, hs) hl =
    rw (loop_word t (render ts ++ left) m h) (loop_said ts left k m hs hl)
loop_said (switch t description ∷ ts) left k m (h, hs) hl =
    rw (loop_switch t description (render ts ++ left) m h) (
      loop_said ts left k (insert t description m) hs hl
      ∙ ap (λ before. said before k ts) (find-insert t k description m))
loop_said (setting j v ∷ ts) left k m (h, hs) hl =
    rw (loop_setting j v (render ts ++ left) m h) (
      loop_said ts left k (store j v m) hs hl
      ∙ ap (λ before. said before k ts) (find-store j k v m))

-- The parts that a list of arguments has.
pub record Parts (arguments : List Text) : Type 0 where
  pub tokens : List Token
  pub left : List Text
  pub rendered : arguments ≡ render tokens ++ left
  pub sound : All IsToken tokens
  pub ended : IsLeft left

more-Parts :
    (t : Token) (arguments rest : List Text)
    → ((left : List Text) (ts : List Token)
        → rest ≡ render ts ++ left
        → arguments ≡ render (t ∷ ts) ++ left)
    → IsToken t
    → Parts rest
    → Parts arguments
more-Parts t arguments rest shape h p = record {
  tokens = t ∷ p.tokens;
  left = p.left;
  rendered = shape p.left p.tokens p.rendered;
  sound = (h, p.sound);
  ended = p.ended;
}

Kind-cases : (k : Kind) → (k ≡ plain) ⊎ (k ≡ help) ⊎ (k ≡ version) ⊎ (k ≡ option)
Kind-cases plain = inl refl
Kind-cases help = inr (inl refl)
Kind-cases version = inr (inr (inl refl))
Kind-cases option = inr (inr (inr refl))

option-or-not : (k : Kind) → (k ≡ option) ⊎ (k ≢ option)
option-or-not plain = inr (λ h. cc)
option-or-not help = inr (λ h. cc)
option-or-not version = inr (λ h. cc)
option-or-not option = inl refl

one_part : (t : Text) (rest : List Text) → kind t ≢ option → Parts rest → Parts (t ∷ rest)
unfolding render
one_part t rest other p = elim (Kind-cases (kind t)) [
  | inl h ↦ more-Parts (word t) (t ∷ rest) rest (λ left ts e. ap (◌∷◌ t) e) h p
  | inr (inl h) ↦
      more-Parts (switch t (codes "display help")) (t ∷ rest) rest (λ left ts e. ap (◌∷◌ t) e)
        (inl (h, refl)) p
  | inr (inr (inl h)) ↦
      more-Parts (switch t (codes "display version")) (t ∷ rest) rest (λ left ts e. ap (◌∷◌ t) e)
        (inr (h, refl)) p
  | inr (inr (inr h)) ↦ absurd (other h)
]

parts : (arguments : List Text) → Parts arguments
unfolding render
parts [] = record { tokens = []; left = []; rendered = refl; sound = tt; ended = tt }
parts (t ∷ []) = elim (option-or-not (kind t)) [
  | inl h ↦ record { tokens = []; left = t ∷ []; rendered = refl; sound = tt; ended = h }
  | inr other ↦ one_part t [] other (parts [])
]
parts (k ∷ v ∷ rest) =
    let fewer = parts rest in
    let one_fewer = parts (v ∷ rest) in
    elim (option-or-not (kind k)) [
      | inl h ↦
          more-Parts (setting k v) (k ∷ v ∷ rest) rest (λ left ts e. ap (λ r. k ∷ v ∷ r) e) h fewer
      | inr other ↦ one_part k (v ∷ rest) other one_fewer
    ]

-- Every list of arguments is made of words, switches and options with a value, with at most one option at
-- its end that has none; and what parse knows of any key is the value of its last setting, or the
-- description of a switch.
pub find-parse :
    (arguments : List Text)
    → (p : Parts arguments) × ((k : Text) → find k (parse arguments) ≡ said none k p.tokens)
unfolding find parse
find-parse arguments =
    let p = parts arguments in
    (
      p,
      λ k.
          ap (λ given. find k (parse_loop given [])) p.rendered
          ∙ loop_said p.tokens p.left k [] p.sound p.ended,
    )
