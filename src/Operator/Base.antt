-- ===== src/Operator/Base.antt =====
-- seekbase/operator/base.py: what the framework knows of an operator.
use seekbase.Base.{
  ℕ, Text, codes, List, [], ◌∷◌, Bool, false, ◌||◌, Option, none, some, ltb, if◌then◌else◌, Result,
  ok, err, query_error,
}
use seekbase.Schema.Types.{strip_prefix}

pub data Cap : Type 0 where
  pure fs_read fs_write net exec : Cap

-- The class facts that the compilers read: which cells the class has, with the number of parameters
-- after `self`, and whether it overrides `is_source`.
pub record Operator : Type 0 where
  pub name : Text
  pub caps : List Cap
  pub bounded : Bool
  pub optimize_duck : Option ℕ
  pub run_duck : Option ℕ
  pub optimize_bash : Bool
  pub run_bash : Bool
  pub overrides_is_source : Option Bool

-- Operator.is_source
unfoldable pub derived_is_source : Operator → Result Bool
derived_is_source op = elim op.optimize_duck [
  | some n ↦ ok (ltb n 2)
  | none ↦ elim op.run_duck [
    | some n ↦ ok (ltb n 3)
    | none ↦ if op.optimize_bash || op.run_bash then ok false else err query_error
  ]
]

unfoldable pub is_source : Operator → Result Bool
unfolding derived_is_source
is_source op = elim op.overrides_is_source [ some b ↦ ok b | none ↦ derived_is_source op ]

unfoldable pub add_pos :
    Text → Result (List Text × List (Text × Text)) → Result (List Text × List (Text × Text))
add_pos t (ok (pos, opts)) = ok (t ∷ pos, opts)
add_pos t (err e) = err e

unfoldable pub add_opt :
    Text → Text → Result (List Text × List (Text × Text)) → Result (List Text × List (Text × Text))
add_opt k v (ok (pos, opts)) = ok (pos, (k, v) ∷ opts)
add_opt k v (err e) = err e

-- parse_tokens. Options stand in the order of the command line; see `get_opt`.
unfoldable pub parse_tokens : List Text → Result (List Text × List (Text × Text))
unfolding strip_prefix add_pos add_opt
parse_tokens [] = ok ([], [])
parse_tokens (t ∷ []) = elim (strip_prefix (codes "--") t) [
  | none ↦ ok (t ∷ [], [])
  | some k ↦ err query_error
]
parse_tokens (t ∷ v ∷ tokens) =
    let as_pos = add_pos t (parse_tokens (v ∷ tokens)) in
    let as_opt = λ (k : Text). add_opt k v (parse_tokens tokens) in
    elim (strip_prefix (codes "--") t) [ none ↦ as_pos | some k ↦ as_opt k ]
