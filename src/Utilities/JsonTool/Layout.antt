-- ===== src/Utilities/JsonTool/Layout.antt =====
-- The pretty text of a value is its compact text, but for spaces and line feeds.
use mathlib.Core.List.{append-nil}
use cpp_toolkit.Prelude.{
  ℕ, zero, suc, ◌≡◌, refl, ◌∙◌, arith, ◌||◌, [], ◌∷◌, ◌++◌, codes, if◌then◌else◌, ◌==◌, nat_eq,
}
use cpp_toolkit.Utilities.JsonTool.{
  Text, Value, scalar, object, array, Members, no_member, member, Elements, no_element, element,
  new_line, spaces, comma_members, comma_elements, open_members, open_elements, close_members,
  close_elements, pretty_print, print_members, print_elements, pretty_format, end_of_depth,
}

-- A text without its spaces and line feeds.
pub bare : Text → Text
bare [] = []
bare (c ∷ cs) = if (c == 32) || (c == 10) then bare cs else c ∷ bare cs

mutual
  pub compact : Value → Text
  compact (scalar text) = text
  compact (object members) = codes "{" ++ (compact_members members ++ codes "}")
  compact (array elements) = codes "[" ++ (compact_elements elements ++ codes "]")

  pub compact_members : Members → Text
  compact_members no_member = []
  compact_members (member key value members) =
      key ++ (codes ":" ++ (compact value ++ (between_members members ++ compact_members members)))

  pub compact_elements : Elements → Text
  compact_elements no_element = []
  compact_elements (element value elements) =
      compact value ++ (between_elements elements ++ compact_elements elements)

  between_members : Members → Text
  between_members no_member = []
  between_members (member key value members) = codes ","

  between_elements : Elements → Text
  between_elements no_element = []
  between_elements (element value elements) = codes ","

bare-append : (xs ys : Text) → bare (xs ++ ys) ≡ bare xs ++ bare ys
unfolding bare
bare-append [] ys = refl
bare-append (x ∷ xs) ys = ground (arith, bare-append xs ys)

bare-spaces : (n : ℕ) → bare (spaces n) ≡ []
unfolding bare spaces
bare-spaces zero = refl
bare-spaces (suc n) = bare-spaces n

bare-end : (depth : ℕ) → bare (end_of_depth depth) ≡ []
unfolding bare
bare-end zero = refl
bare-end (suc depth) = ground arith

comma-members : (ms : Members) → bare (comma_members ms) ≡ bare (between_members ms)
unfolding bare comma_members between_members
comma-members no_member = refl
comma-members (member key value ms) = refl

comma-elements : (es : Elements) → bare (comma_elements es) ≡ bare (between_elements es)
unfolding bare comma_elements between_elements
comma-elements no_element = refl
comma-elements (element value es) = refl

open-members : (ms : Members) → bare (open_members ms) ≡ []
unfolding bare open_members
open-members no_member = refl
open-members (member key value ms) = refl

open-elements : (es : Elements) → bare (open_elements es) ≡ []
unfolding bare open_elements
open-elements no_element = refl
open-elements (element value es) = refl

bare-new_line : (n : ℕ) → bare (new_line ++ spaces n) ≡ []
unfolding bare
bare-new_line n = bare-spaces n

close-members : (n : ℕ) (ms : Members) → bare (close_members n ms) ≡ []
unfolding bare close_members
close-members n no_member = refl
close-members n (member key value ms) = bare-new_line n

close-elements : (n : ℕ) (es : Elements) → bare (close_elements n es) ≡ []
unfolding bare close_elements
close-elements n no_element = refl
close-elements n (element value es) = bare-new_line n

colon : bare (codes ": ") ≡ bare (codes ":")
unfolding bare
colon = refl

ruleset layout = (
  bare-append, bare-spaces, bare-end, comma-members, comma-elements, open-members, open-elements,
  close-members, close-elements, colon, append-nil,
)

mutual
  unfolding pretty_print compact

  bare-print : (w d : ℕ) (v : Value) → bare (pretty_print w d v) ≡ bare (compact v)
  bare-print w d (scalar text) = bare-append text (end_of_depth d) ∙ simp layout
  bare-print w d (object ms) = simp (layout, bare-members w d ms)
  bare-print w d (array es) = simp (layout, bare-elements w d es)

  bare-members : (w d : ℕ) (ms : Members) → bare (print_members w d ms) ≡ bare (compact_members ms)
  bare-members w d no_member = refl
  bare-members w d (member key value ms) =
      simp (layout, bare-print w (suc d) value, bare-members w d ms)

  bare-elements :
      (w d : ℕ) (es : Elements) → bare (print_elements w d es) ≡ bare (compact_elements es)
  bare-elements w d no_element = refl
  bare-elements w d (element value es) =
      simp (layout, bare-print w (suc d) value, bare-elements w d es)

-- pretty_format adds to the compact text of a value nothing but spaces and line feeds, for every width and
-- depth: without these two the texts are the same.
pub bare-pretty_format :
    (value : Value) (indent_width depth : ℕ)
    → bare (pretty_format value indent_width depth) ≡ bare (compact value)
unfolding pretty_format
bare-pretty_format value indent_width depth = bare-print indent_width depth value
