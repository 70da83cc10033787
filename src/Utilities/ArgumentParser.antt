-- ===== src/Utilities/ArgumentParser.antt =====
-- Utilities/ArgumentParser.cpp: the options of a command line as a map, and the getters that read a value
-- as a list, a truth value or a number. The wide characters of the second constructor go through
-- Converter::to_string, whose facets are the system's, so `convert` is a parameter; so is the path of the
-- program, Boost.DLL's. The classes \s and tolower are those of the "C" locale.
pub mod Options
pub mod Matches
pub mod Fields
pub mod Numbers
use cpp_toolkit.Prelude.{
  ℕ, zero, suc, ◌+◌, ◌-◌, ◌*◌, ◌^◌, Bool, true, false, not, ◌&&◌, ◌||◌, Option, none, some, List,
  [], ◌∷◌, ◌++◌, map, codes, if◌then◌else◌, ◌==◌, nat_eq, bytes_eq, leb, ltb, length, is_empty,
  take, drop,
}
use cpp_toolkit.Prelude.Int.{ℤ, pos, negsuc, to_unsigned, to_signed}
use cpp_toolkit.Prelude.Map.{find, assign, insert}
use cpp_toolkit.Utilities.Combiner.{◌>>=◌}
use cpp_toolkit.Utilities.Converter.{starts_with}

abbrev pub Text : Type 0
Text = List ℕ

abbrev pub Arguments : Type 0
Arguments = List (Text × Text)

pub record ArgumentParser : Type 0 where
  pub program_name : Text
  pub program_folder : Text
  pub arguments : Arguments

-- What the tests of parse make of an argument.
pub data Kind : Type 0 where
  plain help version option : Kind

unfoldable pub kind : Text → Kind
unfolding starts_with
kind argument_id =
    if not (starts_with (codes "--") argument_id)
    then plain
    else if argument_id == codes "--help"
    then help
    else if argument_id == codes "--version"
    then version
    else option

unfoldable pub store : Text → Text → Arguments → Arguments
unfolding find assign insert
store argument_id value result = elim (find argument_id result) [
  | none ↦ insert argument_id value result
  | some old ↦ assign argument_id value result
]

-- The loop of parse over the arguments from an index on.
unfoldable pub parse_loop : List Text → Arguments → Arguments
unfolding kind store
parse_loop [] result = result
parse_loop (argument_id ∷ []) result = elim (kind argument_id) [
  | plain ↦ result
  | help ↦ insert argument_id (codes "display help") result
  | version ↦ insert argument_id (codes "display version") result
  | option ↦ result
]
parse_loop (argument_id ∷ value ∷ rest) result = elim (kind argument_id) [
  | plain ↦ parse_loop (value ∷ rest) result
  | help ↦ parse_loop (value ∷ rest) (insert argument_id (codes "display help") result)
  | version ↦ parse_loop (value ∷ rest) (insert argument_id (codes "display version") result)
  | option ↦ parse_loop rest (store argument_id value result)
]

-- parse(const std::vector<std::string>&).
unfoldable pub parse : List Text → Arguments
unfolding parse_loop
parse arguments = parse_loop arguments []

-- The constructor on char* with parse(argc, argv); `argv` begins with the program's name.
unfoldable pub make_parser : Text → Text → List Text → ArgumentParser
unfolding parse
make_parser program_location parent_path argv = record {
  program_name = program_location;
  program_folder = parent_path ++ codes "/";
  arguments = parse (drop 1 argv);
}

-- The constructor on wchar_t*.
unfoldable pub make_parser_wide {ℓ} :
    {W : Type ℓ} → (W → Text) → Text → Text → List W → ArgumentParser
unfolding parse
make_parser_wide convert program_location parent_path argv = record {
  program_name = program_location;
  program_folder = parent_path ++ codes "/";
  arguments = parse (map convert (drop 1 argv));
}

unfoldable pub to_string : Text → ArgumentParser → Option Text
unfolding find
to_string key parser = find key parser.arguments

-- isspace.
abbrev pub is_space : ℕ → Bool
is_space c = (c == 32) || (leb 9 c && leb c 13)

abbrev pub comma : ℕ
comma = 44

abbrev pub not_comma : ℕ → Bool
not_comma c = not (c == comma)

unfoldable pub take_while : (ℕ → Bool) → Text → Text
take_while p [] = []
take_while p (c ∷ cs) = if p c then c ∷ take_while p cs else []

unfoldable pub drop_while : (ℕ → Bool) → Text → Text
drop_while p [] = []
drop_while p (c ∷ cs) = if p c then drop_while p cs else c ∷ cs

-- The group and the rest of a match of \s*([^,]+)\s* whose first \s* has taken `spaces` characters. Where
-- the group finds nothing, that \s* gives its last character back.
unfoldable pub match_group : ℕ → Text → Option (Text × Text)
unfolding take_while drop_while
match_group zero text =
    let group = take_while not_comma text in
    if is_empty group then none else some (group, drop_while is_space (drop_while not_comma text))
match_group (suc spaces) text =
    let shorter = match_group spaces text in
    let group = take_while not_comma (drop (suc spaces) text) in
    if is_empty group
    then shorter
    else some (group, drop_while is_space (drop_while not_comma (drop (suc spaces) text)))

-- A match at the start of the text.
unfoldable pub match_here : Text → Option (Text × Text)
unfolding match_group
match_here text = match_group (length (take_while is_space text)) text

-- std::sregex_iterator: the group of each match, a match being sought from where the last one ended.
-- `none` is a loop out of fuel.
unfoldable pub match_loop : ℕ → Text → Option (List Text)
unfolding match_here
match_loop zero text = none
match_loop (suc fuel) [] = some []
match_loop (suc fuel) (c ∷ cs) = elim (match_here (c ∷ cs)) [
  | none ↦ match_loop fuel cs
  | some (group, rest) ↦ (match_loop fuel rest >>= (λ groups. some (group ∷ groups)))
]

unfoldable pub fields : Text → Option (List Text)
unfolding match_loop
fields text = match_loop (suc (length text)) text

-- to_array: nothing where the key is missing.
unfoldable pub to_array : Text → ArgumentParser → Option (Option (List Text))
unfolding find fields
to_array key parser = elim (find key parser.arguments) [
  | none ↦ some none
  | some value ↦ (fields value >>= (λ result. some (some result)))
]

abbrev pub tolower : ℕ → ℕ
tolower c = if leb 65 c && leb c 90 then c + 32 else c

unfoldable pub to_bool : Text → ArgumentParser → Option Bool
unfolding to_string
to_bool key parser = elim (to_string key parser) [
  | none ↦ none
  | some target ↦ some (map tolower target == codes "true")
]

abbrev pub is_digit : ℕ → Bool
is_digit c = leb 48 c && leb c 57

-- The value of the digits at the start of a text, behind those whose value is `n`.
unfoldable pub digits_value : ℕ → Text → ℕ
digits_value n [] = n
digits_value n (c ∷ cs) = if is_digit c then digits_value (n * 10 + (c - 48)) cs else n

abbrev pub negate : ℕ → ℤ
negate zero = pos 0
negate (suc n) = negsuc n

abbrev pub sign_and_digits : Text → ℤ
sign_and_digits [] = pos 0
sign_and_digits (c ∷ cs) =
    if c == 45
    then negate (digits_value 0 cs)
    else if c == 43
    then pos (digits_value 0 cs)
    else pos (digits_value 0 (c ∷ cs))

abbrev pub fits : ℕ → ℤ → Bool
fits w (pos n) = ltb n (2 ^ (w - 1))
fits w (negsuc n) = ltb n (2 ^ (w - 1))

-- atoi, with 32 bits, and atol, with 64. `none`: a value that does not fit is undefined behaviour.
unfoldable pub ascii_to : ℕ → Text → Option ℤ
unfolding drop_while digits_value
ascii_to w text =
    let value = sign_and_digits (drop_while is_space text) in
    if fits w value then some value else none

-- The number getters, from what to_string gives: `some none` is a missing key.
abbrev pub read_number {ℓ} : {A : Type ℓ} → ℕ → (ℤ → A) → Option Text → Option (Option A)
read_number w cast none = some none
read_number w cast (some target) = ascii_to w target >>= (λ value. some (some (cast value)))

unfoldable pub to_short : Text → ArgumentParser → Option (Option ℤ)
unfolding to_string ascii_to
to_short key parser =
    read_number 32 (λ value. to_signed 16 (to_unsigned 16 value)) (to_string key parser)

unfoldable pub to_ushort : Text → ArgumentParser → Option (Option ℕ)
unfolding to_string ascii_to
to_ushort key parser = read_number 32 (to_unsigned 16) (to_string key parser)

unfoldable pub to_int : Text → ArgumentParser → Option (Option ℤ)
unfolding to_string ascii_to
to_int key parser = read_number 32 (λ value. value) (to_string key parser)

unfoldable pub to_uint : Text → ArgumentParser → Option (Option ℕ)
unfolding to_string ascii_to
to_uint key parser = read_number 32 (to_unsigned 32) (to_string key parser)

unfoldable pub to_long : Text → ArgumentParser → Option (Option ℤ)
unfolding to_string ascii_to
to_long key parser = read_number 64 (λ value. value) (to_string key parser)

unfoldable pub to_ulong : Text → ArgumentParser → Option (Option ℕ)
unfolding to_string ascii_to
to_ulong key parser = read_number 64 (to_unsigned 64) (to_string key parser)
