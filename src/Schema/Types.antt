-- ===== src/Schema/Types.antt =====
-- seekbase/schema.py, `_sql_type`: the DuckDB type of a declared type.
use seekbase.Base.{
  ℕ, ◌≡◌, refl, Text, codes, List, [], ◌∷◌, ◌++◌, Bool, true, false, ◌&&◌, Option, none, some, same,
  leb, ◌==◌, if◌then◌else◌, Result, ok, err, schema_error,
}
use seekbase.Base.Number.{span_digits, value_from, print_nat}

-- _SCALAR_SQL
abbrev pub scalar_types : List (Text × Text)
scalar_types =
    (codes "str", codes "VARCHAR")
    ∷ (codes "int", codes "BIGINT")
    ∷ (codes "float", codes "DOUBLE")
    ∷ (codes "bool", codes "BOOLEAN")
    ∷ (codes "timestamptz", codes "TIMESTAMP WITH TIME ZONE")
    ∷ (codes "json", codes "JSON")
    ∷ []

unfoldable pub find_scalar : Text → List (Text × Text) → Option Text
unfolding same
find_scalar decl [] = none
find_scalar decl ((k, sql) ∷ rest) = if same k decl then some sql else find_scalar decl rest

unfoldable pub strip_prefix : Text → Text → Option Text
strip_prefix [] s = some s
strip_prefix (p ∷ ps) [] = none
strip_prefix (p ∷ ps) (c ∷ s) = if p == c then strip_prefix ps s else none

-- `$` of a regular expression: the end of the text, or a line feed that ends it.
unfoldable pub at_end : Text → Bool
at_end [] = true
at_end (c ∷ []) = c == 10
at_end (c ∷ d ∷ s) = false

-- What `_DECIMAL_RE` reads behind `decimal(`: `(\d+),(\d+)\)$`.
unfoldable pub decimal_digits : Text × Text → Option (Text × Text)
unfolding strip_prefix
decimal_digits ([], rest) = none
decimal_digits (c ∷ cs, rest) = elim (strip_prefix (codes ",") rest) [
  | none ↦ none
  | some scale ↦ some (c ∷ cs, scale)
]

unfoldable pub decimal_tail : Text × Text → Option Text
unfolding strip_prefix at_end
decimal_tail ([], rest) = none
decimal_tail (c ∷ cs, rest) = elim (strip_prefix (codes ")") rest) [
  | none ↦ none
  | some end ↦ if at_end end then some (c ∷ cs) else none
]

unfoldable pub decimal_numbers : Text → Option Text → Option (ℕ × ℕ)
decimal_numbers p none = none
decimal_numbers p (some s) = some (value_from 0 p, value_from 0 s)

unfoldable pub decimal_rest : Option (Text × Text) → Option (ℕ × ℕ)
unfolding decimal_tail span_digits decimal_numbers
decimal_rest none = none
decimal_rest (some (p, rest)) = decimal_numbers p (decimal_tail (span_digits rest))

unfoldable pub decimal_body : Option Text → Option (ℕ × ℕ)
unfolding decimal_digits span_digits decimal_rest
decimal_body none = none
decimal_body (some body) = decimal_rest (decimal_digits (span_digits body))

-- _DECIMAL_RE.match, with `int` of its two groups
unfoldable pub decimal_match : Text → Option (ℕ × ℕ)
unfolding strip_prefix decimal_body
decimal_match decl = decimal_body (strip_prefix (codes "decimal(") decl)

unfoldable pub decimal_sql : ℕ → ℕ → Text
decimal_sql p s = codes "DECIMAL(" ++ print_nat p ++ codes "," ++ print_nat s ++ codes ")"

-- `0 <= s` holds of every natural number.
unfoldable pub decimal_type : Option (ℕ × ℕ) → Result Text
unfolding decimal_sql
decimal_type none = err schema_error
decimal_type (some (p, s)) = if leb 1 p && leb s p then ok (decimal_sql p s) else err schema_error

-- _sql_type
unfoldable pub sql_type : Text → Result Text
unfolding find_scalar decimal_match decimal_type
sql_type decl = elim (find_scalar decl scalar_types) [
  | some sql ↦ ok sql
  | none ↦ decimal_type (decimal_match decl)
]

sql_type_tests :
    (sql_type (codes "int") ≡ ok (codes "BIGINT"))
    × (sql_type (codes "decimal(10,02)") ≡ ok (codes "DECIMAL(10,2)"))
    × (sql_type (codes "decimal(2,10)") ≡ err schema_error)
    × (sql_type (codes "decimal(1,1)\n") ≡ ok (codes "DECIMAL(1,1)"))
    × (sql_type (codes "text") ≡ err schema_error)
unfolding sql_type print_nat value_from
sql_type_tests = (refl, refl, refl, refl, refl)
