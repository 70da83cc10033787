-- ===== src/Utilities/Converter.antt =====
-- Utilities/Converter.cpp: text and bytes, split and replace. The conversions between encodings rest on
-- the facets of a std::locale and are left out. A loop over the places where the token stands has
-- fuel, one round more than the source has bytes: with a token that is not empty it is enough.
pub mod Bytes
pub mod Places
pub mod Pieces
use cpp_toolkit.Prelude.{
  ℕ, zero, suc, ◌+◌, ◌-◌, Bool, true, false, ◌&&◌, Option, none, some, List, [], ◌∷◌, ◌++◌,
  if◌then◌else◌, ◌==◌, nat_eq, leb, length, is_empty, take, drop,
}

abbrev Text : Type 0
Text = List ℕ

-- to_array(const std::string&).
unfoldable pub to_array : Text → List ℕ
to_array value = value

unfoldable pub has_bom : List ℕ → Bool
has_bom (a ∷ b ∷ c ∷ rest) = (a == 239) && ((b == 187) && (c == 191))
has_bom _ = false

-- to_string(const std::vector<uint8_t>&).
unfoldable pub to_string : List ℕ → Text
unfolding has_bom
to_string value = if has_bom value then drop 2 value else value

unfoldable pub starts_with : Text → Text → Bool
starts_with [] source = true
starts_with (t ∷ token) [] = false
starts_with (t ∷ token) (s ∷ source) = (t == s) && starts_with token source

unfoldable pub index_of : Text → Text → Option ℕ
unfolding starts_with
index_of token [] = if is_empty token then some 0 else none
index_of token (s ∷ source) =
    let rest = index_of token source in
    if starts_with token (s ∷ source)
    then some 0
    else elim rest [ none ↦ none | some k ↦ some (suc k) ]

-- source.find(token, offset), with `none` for npos.
unfoldable pub find : Text → Text → ℕ → Option ℕ
unfolding index_of
find source token offset =
    if leb offset (length source)
    then elim (index_of token (drop offset source)) [ none ↦ none | some k ↦ some (offset + k) ]
    else none

-- source.substr(offset, count).
unfoldable pub substr : Text → ℕ → ℕ → Text
substr source offset count = take count (drop offset source)

unfoldable pub push_piece : List Text → Text → List Text
push_piece result [] = result
push_piece result (c ∷ temp) = result ++ ((c ∷ temp) ∷ [])

-- The loop of split: the last offset and the pieces. `none` is a loop out of fuel.
unfoldable pub split_loop : ℕ → Text → Text → ℕ → List Text → Option (ℕ × List Text)
unfolding find substr push_piece
split_loop zero source token last_offset result = none
split_loop (suc fuel) source token last_offset result = elim (find source token last_offset) [
  | none ↦ some (last_offset, result)
  | some offset ↦
      split_loop fuel source token (offset + length token)
        (push_piece result (substr source last_offset (offset - last_offset)))
]

unfoldable pub split_rest : Text → ℕ × List Text → List Text
unfolding push_piece
split_rest source (zero, result) = source ∷ []
split_rest source (suc last_offset, result) = push_piece result (drop (suc last_offset) source)

unfoldable pub split : Text → Text → Option (List Text)
unfolding split_loop split_rest
split [] token = some []
split (s ∷ source) token = elim (split_loop (suc (length (s ∷ source))) (s ∷ source) token 0 []) [
  | none ↦ none
  | some found ↦ some (split_rest (s ∷ source) found)
]

-- The loop of replace2: the last offset and the text so far.
unfoldable pub replace_loop : ℕ → Text → Text → Text → ℕ → Text → Option (ℕ × Text)
unfolding find substr
replace_loop zero source token target last_offset result = none
replace_loop (suc fuel) source token target last_offset result =
    elim (find source token last_offset) [
      | none ↦ some (last_offset, result)
      | some offset ↦
          replace_loop fuel source token target (offset + length token)
            (result ++ (substr source last_offset (offset - last_offset) ++ target))
    ]

unfoldable pub replace_rest : Text → ℕ × Text → Text
replace_rest source (zero, result) = source
replace_rest source (suc last_offset, result) = result ++ drop (suc last_offset) source

unfoldable pub replace2 : Text → Text → Text → Option Text
unfolding replace_loop replace_rest
replace2 [] token target = some []
replace2 (s ∷ source) token target =
    elim (replace_loop (suc (length (s ∷ source))) (s ∷ source) token target 0 []) [
      | none ↦ none
      | some found ↦ some (replace_rest (s ∷ source) found)
    ]
