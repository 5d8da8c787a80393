-- ===== src/Streams/Compile.antt =====
-- `StreamService._compile`: `watch '<glob>' | <bash middles…> | ingest <table>`.
use seekbase.Base.{
  Text, codes, List, [], ◌∷◌, not, none, some, same, if◌then◌else◌, Result, ok, err, query_error,
  ◌>>=◌, ◌>>◌,
}
use seekbase.Schema.Data.{Schema, table}
use seekbase.Operator.Base.{Operator}
use seekbase.Operator.Policy.{Policy, check}
use seekbase.Operator.Registry.{Registry}
use seekbase.Operator.Builtins.{WatchArgs, IngestArgs}
use seekbase.Pipeline.Split.{split_pipeline}
use seekbase.Pipeline.Stage.{classify}

-- `split_args` and `parse_args` of an operator, and what the stream reads of the arguments.
pub record StreamCells (A : Type 0) : Type 0 where
  pub parse_args : Operator → Text → Result A
  pub watch : A → WatchArgs
  pub ingest : A → IngestArgs
  pub argv : Operator → A → List Text

pub record StreamPlan : Type 0 where
  pub head : WatchArgs
  pub middles : List (List Text)
  pub tail : IngestArgs

module _ {A : Type 0} (cells : StreamCells A) (policy : Policy) (ops : Registry)
    (schema : Schema) where
  unfoldable pub parse_segment : Text → Result (Operator × A)
  unfolding classify check
  parse_segment seg = elim (classify ops seg) [
    | none ↦ err query_error
    | some (op, rest) ↦ (do check policy op; args ← cells.parse_args op rest; ok (op, args))
  ]

  unfoldable pub parse_segments : List Text → Result (List (Operator × A))
  unfolding parse_segment
  parse_segments [] = ok []
  parse_segments (seg ∷ segs) = do
    first ← parse_segment seg
    rest ← parse_segments segs
    ok (first ∷ rest)

  -- the table of the sink must be in the schema
  unfoldable pub end_stream : Operator × A → Result IngestArgs
  unfolding table same
  end_stream (op, args) =
      if not (same op.name (codes "ingest"))
      then err query_error
      else do spec ← table schema (cells.ingest args).table; ok (cells.ingest args)

  unfoldable pub middle : Operator × A → Result (List Text)
  middle (op, args) = if op.optimize_bash then ok (cells.argv op args) else err query_error

  -- The segments behind the source: the tail is looked at first, then the middles.
  unfoldable pub last_of : Operator × A → List (Operator × A) → Operator × A
  last_of p [] = p
  last_of p (q ∷ rest) = last_of q rest

  unfoldable pub middles_of : Operator × A → List (Operator × A) → Result (List (List Text))
  unfolding middle
  middles_of p [] = ok []
  middles_of p (q ∷ rest) = do first ← middle p; more ← middles_of q rest; ok (first ∷ more)

  unfoldable pub assemble : List (Operator × A) → Result StreamPlan
  unfolding end_stream last_of middles_of
  assemble [] = err query_error
  assemble (p ∷ []) = err query_error
  assemble ((op, args) ∷ q ∷ rest) = if op.bounded then err query_error else do
    tail ← end_stream (last_of q rest)
    middles ← middles_of q rest
    ok (record { head = cells.watch args; middles = middles; tail = tail })

  unfoldable pub at_least_two : List Text → Result (List Text)
  at_least_two [] = err query_error
  at_least_two (s ∷ []) = err query_error
  at_least_two (s ∷ t ∷ segs) = ok (s ∷ t ∷ segs)

  -- _compile
  unfoldable pub compile : Text → Result StreamPlan
  unfolding split_pipeline at_least_two parse_segments assemble
  compile text = do
    split ← split_pipeline text
    segs ← at_least_two split
    parsed ← parse_segments segs
    assemble parsed
