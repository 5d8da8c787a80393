-- ===== src/Pipeline/Split.antt =====
-- `split_pipeline` and `_count_placeholders`. Both loops look one character ahead; a move says what is
-- done with the character, and whether a quotation is open behind it.
use seekbase.Base.{
  ℕ, suc, Text, List, [], ◌∷◌, map, Bool, true, false, ◌||◌, Option, none, some, ◌==◌,
  if◌then◌else◌, Result, ok, err, query_error,
}
use seekbase.Base.Strip.{strip}

pub data Move : Type 0 where
  one two : Option ℕ → Move
  cut : Move

unfoldable pub is_quote : ℕ → Bool
is_quote c = c == b'\'' || c == b'"'

-- The move at `c`, with `d` behind it.
unfoldable pub move : Option ℕ → ℕ → ℕ → Move
unfolding is_quote
move (some q) c d = if c == q then if d == q then two (some q) else one none else one (some q)
move none c d =
    if is_quote c
    then one (some c)
    else if c == b'|'
    then if d == b'|' then two none else cut
    else one none

-- The move at the last character.
unfoldable pub last_move : Option ℕ → ℕ → Move
last_move (some q) c = one none
last_move none c = if c == b'|' then cut else one none

-- The text up to the first separator, and the texts behind the separators.
abbrev pub Parts : Type 0
Parts = Text × List Text

abbrev pub push : ℕ → Parts → Parts
push c (first, rest) = (c ∷ first, rest)

abbrev pub separate : Parts → Parts
separate (first, rest) = ([], first ∷ rest)

unfoldable pub split_from : Option ℕ → Text → Parts
unfolding move last_move
split_from quote [] = ([], [])
split_from quote (c ∷ []) = elim (last_move quote c) [
  | one _ ↦ (c ∷ [], [])
  | two _ ↦ (c ∷ [], [])
  | cut ↦ ([], [] ∷ [])
]
split_from quote (c ∷ d ∷ s) = elim (move quote c d) [
  | one quote' ↦ push c (split_from quote' (d ∷ s))
  | two quote' ↦ push c (push d (split_from quote' s))
  | cut ↦ separate (split_from none (d ∷ s))
]

unfoldable pub any_empty : List Text → Bool
any_empty [] = false
any_empty ([] ∷ segs) = true
any_empty ((c ∷ s) ∷ segs) = any_empty segs

abbrev pub parts_list : Parts → List Text
parts_list (first, rest) = first ∷ rest

-- split_pipeline
unfoldable pub split_pipeline : Text → Result (List Text)
unfolding split_from strip any_empty
split_pipeline s =
    let segs = map strip (parts_list (split_from none s)) in
    if any_empty segs then err query_error else ok segs

-- The quotation behind `c`, and whether `d` is skipped with it.
unfoldable pub count_move : Option ℕ → ℕ → ℕ → Move
unfolding is_quote
count_move (some q) c d = if c == q then if d == q then two (some q) else one none else one (some q)
count_move none c d = if is_quote c then one (some c) else one none

unfoldable pub is_placeholder : Option ℕ → ℕ → Bool
is_placeholder (some q) c = false
is_placeholder none c = c == b'?'

unfoldable pub count_one : Bool → ℕ → ℕ
count_one true n = suc n
count_one false n = n

unfoldable pub count_from : Option ℕ → Text → ℕ
unfolding count_move is_placeholder count_one
count_from quote [] = 0
count_from quote (c ∷ []) = count_one (is_placeholder quote c) 0
count_from quote (c ∷ d ∷ s) = elim (count_move quote c d) [
  | one quote' ↦ count_one (is_placeholder quote c) (count_from quote' (d ∷ s))
  | two quote' ↦ count_from quote' s
  | cut ↦ 0
]

-- _count_placeholders
unfoldable pub count_placeholders : Text → ℕ
unfolding count_from
count_placeholders = count_from none
