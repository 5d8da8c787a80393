-- ===== src/Store/Plan.antt =====
-- `run_query` and `run_plan`: reads. What DuckDB, the processes and JSON do is an argument.
use seekbase.Base.{
  Text, List, [], ◌∷◌, Bool, true, Option, none, some, Result, ok, err, read_only_error, ◌>>=◌,
  ◌>>◌,
}
use seekbase.Value.{Value, Dict}
use seekbase.Store.Visible.{check_ds}
use seekbase.Pipeline.Fuse.{Phase, duck, bash}

pub record Reader : Type 1 where
  pub Bytes : Type 0
  pub is_select : Text → Result (List Bool)  -- of each statement of the text
  pub execute : Option Text → Option Text → Text → List Value → Result (List Dict)
  pub execute_bridge :
      Option Text → Option Text → Option Bytes → Text → List Value → Result (List Dict)
  pub chain : List (List Text) → Bytes → Result Bytes
  pub to_jsonl : List Dict → Bytes
  pub of_jsonl : Bytes → Result (List Dict)
  pub load_bridge : Bytes → Result (Unit {0})

module _ (reader : Reader) where
  open reader use {
    Bytes, is_select, execute, execute_bridge, chain, to_jsonl, of_jsonl, load_bridge,
  }

  -- a single statement, which is a SELECT
  unfoldable pub one_select : List Bool → Result (Unit {0})
  one_select (true ∷ []) = ok tt
  one_select _ = err read_only_error

  -- run_query
  unfoldable pub run_query : Option Text → Option Text → Text → List Value → Result (List Dict)
  unfolding check_ds one_select
  run_query ds_start ds_end sql params = do
    check_ds ds_start
    check_ds ds_end
    stmts ← is_select sql
    one_select stmts
    execute ds_start ds_end sql params

  -- The loop of `run_plan`: `bridge` is the content of the table `_bridge`, `rows` the latest rows.
  unfoldable pub run_phases :
      Option Text → Option Text → Option Bytes → List Dict → List Phase → Result (List Dict)
  unfolding one_select
  run_phases ds_start ds_end bridge rows [] = ok rows
  run_phases ds_start ds_end bridge rows (duck sql params ∷ phases) = do
    stmts ← is_select sql
    one_select stmts
    rows' ← execute_bridge ds_start ds_end bridge sql params
    run_phases ds_start ds_end bridge rows' phases
  run_phases ds_start ds_end bridge rows (bash argvs ∷ []) = do
    out ← chain argvs (to_jsonl rows)
    of_jsonl out
  run_phases ds_start ds_end bridge rows (bash argvs ∷ phase ∷ phases) = do
    out ← chain argvs (to_jsonl rows)
    load_bridge out
    run_phases ds_start ds_end (some out) rows (phase ∷ phases)

  -- run_plan
  unfoldable pub run_plan : Option Text → Option Text → List Phase → Result (List Dict)
  unfolding check_ds run_phases
  run_plan ds_start ds_end phases = do
    check_ds ds_start
    check_ds ds_end
    run_phases ds_start ds_end none [] phases
