-- ===== src/Database.antt =====
-- Database/PostgresDB.cpp over libpq, which is a parameter, as std::stoi and std::stof are: a connection is in
-- some state, and a query that selects gives rows of fields.
use cpp_toolkit.Prelude.{
  ℕ, suc, ◌+◌, ◌≡◌, arith, Bool, true, false, not, ◌&&◌, Option, none, some, List, [], ◌∷◌, ◌++◌,
  codes, if◌then◌else◌, ◌==◌, nat_eq, is_empty, length, Option-cases, inl, inr,
}
use cpp_toolkit.Prelude.Int.{ℤ}
use cpp_toolkit.Utilities.Combiner.{◌>>=◌}
use cpp_toolkit.Thread.Job.{Text, Outcome}

-- The regular expression of parse_postgres_array: what stands behind the first brace, up to one that closes.
unfoldable pub until_close : Text → Option Text
until_close [] = none
until_close (c ∷ text) =
    let rest = until_close text in
    if c == 125 then some [] else (rest >>= (λ inside. some (c ∷ inside)))

unfoldable pub braces : Text → Option Text
unfolding until_close
braces [] = none
braces (c ∷ text) = let rest = braces text in if c == 123 then until_close text else rest

-- The loop over std::getline with a comma; `element` is what has been read of the next one.
unfoldable pub split_commas : Text → Text → List Text
split_commas element [] = if is_empty element then [] else element ∷ []
split_commas element (c ∷ text) = elim (c == 44) [
  | true ↦ element ∷ split_commas [] text
  | false ↦ split_commas (element ++ (c ∷ [])) text
]

unfoldable pub erase_front : Text → Text
erase_front [] = []
erase_front (c ∷ text) = let rest = erase_front text in if c == 32 then rest else c ∷ text

unfoldable pub erase_back : Text → Text
erase_back [] = []
erase_back (c ∷ text) =
    let rest = erase_back text in if is_empty rest && (c == 32) then [] else c ∷ rest

unfoldable pub erase_each : List Text → List Text
unfolding erase_front erase_back
erase_each [] = []
erase_each (element ∷ elements) = erase_back (erase_front element) ∷ erase_each elements

unfoldable pub parse_postgres_array : Text → List Text
unfolding braces split_commas erase_each
parse_postgres_array array_string = elim (braces array_string) [
  | none ↦ []
  | some elements_string ↦ erase_each (split_commas [] elements_string)
]

-- What PQgetisnull, PQftype and PQgetvalue give for a field.
pub record Field : Type 0 where
  pub is_null : Bool
  pub field_type : ℕ
  pub field_value : Text

-- std::variant<int, double, std::string, std::vector<std::string>>.
pub data Value {ℓ} (Real : Type ℓ) : Type ℓ where
  of_int : ℤ → Value Real
  of_double : Real → Value Real
  of_text : Text → Value Real
  of_array : List Text → Value Real

-- libpq by the state of a connection; `none` from a query that selects is a status of another kind.
pub record Postgres {ℓ} (World : Type ℓ) : Type ℓ where
  pub is_ok : World → Bool
  pub error_message : World → Text
  pub command : Text → World → World × Bool
  pub selection : Text → World → World × Option (List (List Field))

module _ {ℓ} {Real : Type ℓ} (stoi : Text → Option ℤ) (stof : Text → Option Real) where
  -- The switch. `none`: std::stoi or std::stof throws.
  unfoldable pub value_of : Field → Option (Value Real)
  unfolding parse_postgres_array
  value_of field =
      if field.field_type == 23
      then (stoi field.field_value >>= (λ n. some (of_int n)))
      else if field.field_type == 700
      then (stof field.field_value >>= (λ x. some (of_double x)))
      else if field.field_type == 1009
      then some (of_array (parse_postgres_array field.field_value))
      else some (of_text field.field_value)

  unfoldable pub read_row : List Field → Option (List (Value Real))
  unfolding value_of
  read_row [] = some []
  read_row (field ∷ fields) =
      let rest = read_row fields in
      (value_of field >>= (λ value. rest >>= (λ values.
        some ((if field.is_null then of_text [] ∷ value ∷ values else value ∷ values)))))

  unfoldable pub read_rows : List (List Field) → Option (List (List (Value Real)))
  unfolding read_row
  read_rows [] = some []
  read_rows (fields ∷ rows) =
      let rest = read_rows rows in
      (read_row fields >>= (λ row. rest >>= (λ result. some (row ∷ result))))

  module _ {ℓ'} {World : Type ℓ'} (db : Postgres World) where
    unfoldable pub execute_query : Text → World → World × Outcome
    execute_query sql_query world =
        if not (db.is_ok world)
        then (world, (false, some (codes "there is no created PGconn: " ++ db.error_message world)))
        else (let (world', done) = db.command sql_query world in
            if not done
            then (world', (false, some (db.error_message world')))
            else (world', (true, none)))

    -- The message of a success, which tells the number of rows, is given by its fixed part. `none`: it throws.
    unfoldable pub execute_query_and_get_result :
        Text → World → World × Option (Option (List (List (Value Real))) × Option Text)
    unfolding read_rows
    execute_query_and_get_result sql_query world =
        if not (db.is_ok world)
        then (
          world,
          some (none, some (codes "there is no created PGconn: " ++ db.error_message world)),
        )
        else (let (world', answer) = db.selection sql_query world in
            elim answer [
              | none ↦ (world', some (none, some (db.error_message world')))
              | some rows ↦ (
                world',
                (read_rows rows >>= (λ result_data.
                    some (some result_data, some (codes "there are selected rows: ")))),
              )
            ])

  pub nulls : List Field → ℕ
  nulls [] = 0
  nulls (field ∷ fields) = if field.is_null then suc (nulls fields) else nulls fields

  -- A row that is read has a value for each field and one more for each that is null.
  pub length-read_row :
      (fields : List Field) (row : List (Value Real))
      → read_row fields ≡ some row
      → length row ≡ length fields + nulls fields
  unfolding read_row nulls
  length-read_row [] row e = ground arith
  length-read_row (field ∷ fields) row e = elim (Option-cases (value_of field)) [
    | inl h ↦ ground (arith, e, h)
    | inr (value, h) ↦ elim (Option-cases (read_row fields)) [
      | inl h' ↦ ground (arith, e, h, h')
      | inr (values, h') ↦ ground (arith, e, h, h', length-read_row fields values h')
    ]
  ]
