-- ===== src/Pipeline/Stage.antt =====
-- `_classify` and the first part of `_compile`: every segment becomes SQL or an authorized operator
-- with its arguments.
use seekbase.Base.{
  ℕ, Text, codes, List, [], ◌∷◌, Bool, not, ◌||◌, ◌&&◌, Option, none, some, is_some, same, leb,
  ◌==◌, if◌then◌else◌, Result, ok, err, query_error, ◌>>=◌, ◌>>◌,
}
use seekbase.Base.Strip.{lstrip, has_char}
use seekbase.Base.Number.{is_digit}
use seekbase.Value.{Value}
use seekbase.Operator.Base.{Operator, is_source}
use seekbase.Operator.Policy.{Policy, check}
use seekbase.Operator.Registry.{Registry, resolve}

unfoldable pub is_lead : ℕ → Bool
is_lead c = leb b'A' c && leb c b'Z' || leb b'a' c && leb c b'z' || c == b'_'

-- The longest run of `[A-Za-z0-9_]` at the front, and what follows it.
unfoldable pub span_word : Text → Text × Text
unfolding is_lead is_digit
span_word [] = ([], [])
span_word (c ∷ s) =
    let (word, rest) = span_word s in
    if is_lead c || is_digit c then (c ∷ word, rest) else ([], c ∷ s)

unfoldable pub lead_word : Text → Option (Text × Text)
unfolding is_lead span_word
lead_word [] = none
lead_word (c ∷ s) = if is_lead c then some (span_word (c ∷ s)) else none

-- `_LEAD.match`: the leading token, and the text behind it
unfoldable pub lead : Text → Option (Text × Text)
unfolding lead_word lstrip
lead s = lead_word (lstrip s)

unfoldable pub classify : Registry → Text → Option (Operator × Text)
unfolding lead resolve
classify ops segment = elim (lead segment) [
  | none ↦ none
  | some (token, rest) ↦ elim (resolve ops token) [ none ↦ none | some op ↦ some (op, rest) ]
]

-- The methods of an operator class, which a user may write. `prepare` is `split_args`, `parse_args`
-- and the hook `prepare` together, on the text behind the operator's name.
pub record Cells (A : Type 0) : Type 0 where
  pub prepare : Operator → Text → Result A
  pub lower_source : Operator → A → Result (Text × List Value)
  pub lower_middle : Operator → Text → A → Result (Text × List Value)
  pub argv : Operator → A → List Text

pub data Staged (A : Type 0) : Type 0 where
  duck_op : Operator → A → Staged A
  duck_sql : Text → Staged A
  bash_op : Operator → A → Staged A

module _ {A : Type 0} (cells : Cells A) where
  -- the runtime that a prepared operator goes to
  unfoldable pub assign : Operator → A → Result (Staged A)
  unfolding is_source
  assign op args =
      if is_some op.optimize_duck
      then ok (duck_op op args)
      else if op.optimize_bash
      then (do source ← is_source op; if source then err query_error else ok (bash_op op args))
      else err query_error

  -- an unbounded source, or the streaming sink
  unfoldable pub refuse_streaming : Operator → Result (Unit {0})
  unfolding same
  refuse_streaming op =
      if not op.bounded
      then err query_error
      else if same op.name (codes "ingest")
      then err query_error
      else ok tt

  unfoldable pub stage_operator : Policy → Operator → Text → Result (Staged A)
  unfolding check assign refuse_streaming
  stage_operator policy op rest = do
    check policy op
    refuse_streaming op
    args ← cells.prepare op rest
    assign op args

  unfoldable pub stage_sql : Text → Result (Staged A)
  unfolding has_char
  stage_sql segment = if has_char b';' segment then err query_error else ok (duck_sql segment)

  unfoldable pub stage_segment : Policy → Registry → Text → Result (Staged A)
  unfolding classify stage_operator stage_sql
  stage_segment policy ops segment = elim (classify ops segment) [
    | none ↦ stage_sql segment
    | some (op, rest) ↦ stage_operator policy op rest
  ]

  unfoldable pub stage : Policy → Registry → List Text → Result (List (Staged A))
  unfolding stage_segment
  stage policy ops [] = ok []
  stage policy ops (segment ∷ segments) = do
    first ← stage_segment policy ops segment
    rest ← stage policy ops segments
    ok (first ∷ rest)
