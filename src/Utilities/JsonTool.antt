-- ===== src/Utilities/JsonTool.antt =====
-- Utilities/JsonTool.cpp: the pretty printer. A value is Boost.JSON's as the printer walks it; a text or a
-- number is given by what boost::json::serialize makes of it, and so is a key. Widths are not negative.
pub mod Layout
use cpp_toolkit.Prelude.{
  ℕ, zero, suc, ◌+◌, ◌*◌, Bool, List, [], ◌∷◌, ◌++◌, codes, if◌then◌else◌, ◌==◌, nat_eq,
}

abbrev pub Text : Type 0
Text = List ℕ

mutual
  pub data Value : Type 0 where
    scalar : Text → Value
    object : Members → Value
    array : Elements → Value

  pub data Members : Type 0 where
    no_member : Members
    member : Text → Value → Members → Members

  pub data Elements : Type 0 where
    no_element : Elements
    element : Value → Elements → Elements

abbrev pub new_line : Text
new_line = 10 ∷ []

-- std::string(n, ' ').
unfoldable pub spaces : ℕ → Text
spaces zero = []
spaces (suc n) = 32 ∷ spaces n

abbrev pub end_of_depth : ℕ → Text
end_of_depth depth = if depth == 0 then new_line else []

-- What the loops write between an entry and those that are left.
unfoldable pub comma_members : Members → Text
comma_members no_member = []
comma_members (member key value members) = codes ",\n"

unfoldable pub comma_elements : Elements → Text
comma_elements no_element = []
comma_elements (element value elements) = codes ",\n"

-- What stands around the entries of an object or an array, if there are any.
unfoldable pub open_members : Members → Text
open_members no_member = []
open_members (member key value members) = new_line

unfoldable pub open_elements : Elements → Text
open_elements no_element = []
open_elements (element value elements) = new_line

unfoldable pub close_members : ℕ → Members → Text
unfolding spaces
close_members indent no_member = []
close_members indent (member key value members) = new_line ++ spaces indent

unfoldable pub close_elements : ℕ → Elements → Text
unfolding spaces
close_elements indent no_element = []
close_elements indent (element value elements) = new_line ++ spaces indent

-- What pretty_print writes.
unfoldable mutual
  unfolding spaces comma_members comma_elements open_members open_elements close_members
      close_elements

  pub pretty_print : ℕ → ℕ → Value → Text
  pretty_print indent_width depth (scalar text) = text ++ end_of_depth depth
  pretty_print indent_width depth (object members) =
      codes "{"
      ++ (open_members members
          ++ (print_members indent_width depth members
              ++ (close_members (depth * indent_width) members
                  ++ (codes "}" ++ end_of_depth depth))))
  pretty_print indent_width depth (array elements) =
      codes "["
      ++ (open_elements elements
          ++ (print_elements indent_width depth elements
              ++ (close_elements (depth * indent_width) elements
                  ++ (codes "]" ++ end_of_depth depth))))

  pub print_members : ℕ → ℕ → Members → Text
  print_members indent_width depth no_member = []
  print_members indent_width depth (member key value members) =
      spaces ((depth + 1) * indent_width)
      ++ (key
          ++ (codes ": "
              ++ (pretty_print indent_width (suc depth) value
                  ++ (comma_members members ++ print_members indent_width depth members))))

  pub print_elements : ℕ → ℕ → Elements → Text
  print_elements indent_width depth no_element = []
  print_elements indent_width depth (element value elements) =
      spaces ((depth + 1) * indent_width)
      ++ (pretty_print indent_width (suc depth) value
          ++ (comma_elements elements ++ print_elements indent_width depth elements))

-- pretty_format.
unfoldable pub pretty_format : Value → ℕ → ℕ → Text
unfolding pretty_print
pretty_format value indent_width depth = pretty_print indent_width depth value
