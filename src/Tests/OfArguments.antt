-- ===== src/Tests/OfArguments.antt =====
-- The theorems on Utilities/ArgumentParser at concrete inputs, and tests of its functions.
use cpp_toolkit.Prelude.{ℕ, ◌≡◌, refl, arith, true, some, none, List, [], ◌∷◌, codes, bytes_eq}
use cpp_toolkit.Prelude.Int.{pos, negsuc}
use cpp_toolkit.Prelude.Map.{find}
use cpp_toolkit.Utilities.ArgumentParser.{
  ArgumentParser, parse, to_bool, to_int, to_long, to_short, fields,
}
use cpp_toolkit.Utilities.ArgumentParser.Fields.{pieces, fields_lem}
use cpp_toolkit.Utilities.ArgumentParser.Options.{Parts, said, find-parse}
use cpp_toolkit.Utilities.ArgumentParser.Numbers.{decimal, printed, to_int-printed}

abbrev command_line : List (List ℕ)
command_line =
    codes "word"
    ∷ codes "--port"
    ∷ codes "80"
    ∷ codes "--help"
    ∷ codes "--port"
    ∷ codes "--81"
    ∷ codes "--last"
    ∷ []

find-parse_example :
    (p : Parts command_line) × ((k : List ℕ) → find k (parse command_line) ≡ said none k p.tokens)
find-parse_example = find-parse command_line

later_port : find (codes "--port") (parse command_line) ≡ some (codes "--81")
unfolding parse find
later_port = refl

no_last : find (codes "--last") (parse command_line) ≡ none
unfolding parse find
no_last = refl

fields_lem_example : fields (codes " a,b ,, c") ≡ some (pieces (codes " a,b ,, c"))
fields_lem_example = fields_lem (codes " a,b ,, c")

-- The space behind `b` stays.
three_fields : fields (codes " a,b ,, c") ≡ some (codes "a" ∷ codes "b " ∷ codes "c" ∷ [])
unfolding fields
three_fields = refl

abbrev parser : ArgumentParser
parser = record {
  program_name = codes "program";
  program_folder = codes "folder/";
  arguments =
      (codes "--n", codes "-042")
      ∷ (codes "--b", codes "TRUE")
      ∷ (codes "--s", codes " 65537x")
      ∷ [];
}

forty_two : find (codes "--n") parser.arguments ≡ some (printed 3 (negsuc 41))
unfolding find decimal
forty_two = refl

to_int-printed_example :
    (to_int (codes "--n") parser ≡ some (some (negsuc 41)))
    × (to_long (codes "--n") parser ≡ some (some (negsuc 41)))
to_int-printed_example =
    to_int-printed 2 (negsuc 41) (codes "--n") parser forty_two (omega arith) refl

a_bool : to_bool (codes "--b") parser ≡ some true
unfolding to_bool find
a_bool = refl

a_short : to_short (codes "--s") parser ≡ some (some (pos 1))
unfolding to_short find
a_short = refl
