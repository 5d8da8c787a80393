-- ===== src/Operator/Registry.antt =====
-- seekbase/operator/registry.py: the registered operators, by lower-case name.
use seekbase.Base.{
  ℕ, ◌+◌, Text, codes, List, [], ◌∷◌, ◌++◌, map, ◌&&◌, Option, none, some, is_some, same, member,
  leb, if◌then◌else◌, Result, ok, err, query_error, ◌>>=◌,
}
use seekbase.Operator.Base.{Operator, is_source}

-- str.lower, over the ASCII letters
unfoldable pub lower_char : ℕ → ℕ
lower_char c = if leb b'A' c && leb c b'Z' then c + 32 else c

unfoldable pub lower : Text → Text
unfolding lower_char
lower = map lower_char

-- SQL_LEADING_KEYWORDS
abbrev pub sql_leading_keywords : List Text
sql_leading_keywords =
    codes "select"
    ∷ codes "with"
    ∷ codes "from"
    ∷ codes "values"
    ∷ codes "table"
    ∷ codes "show"
    ∷ codes "describe"
    ∷ codes "summarize"
    ∷ codes "pragma"
    ∷ codes "explain"
    ∷ []

abbrev pub Registry : Type 0
Registry = List (Text × Operator)

unfoldable pub find_operator : Text → Registry → Option Operator
find_operator name [] = none
find_operator name ((n, op) ∷ ops) = if same n name then some op else find_operator name ops

unfoldable pub add : Text → Operator → Registry → Registry
add name op ops = ops ++ (name, op) ∷ []

-- Registry.register
unfoldable pub register : Operator → Registry → Result Registry
unfolding lower find_operator is_source add member
register op ops =
    let name = lower op.name in
    if same name []
    then err query_error
    else if member name sql_leading_keywords
    then err query_error
    else if is_some (find_operator name ops)
    then err query_error
    else do source ← is_source op; ok (add name op ops)

-- Registry.resolve
unfoldable pub resolve : Registry → Text → Option Operator
unfolding lower find_operator
resolve ops token = find_operator (lower token) ops

unfoldable pub register_all : List Operator → Registry → Result Registry
unfolding register
register_all [] ops = ok ops
register_all (op ∷ more) ops = do ops' ← register op ops; register_all more ops'
