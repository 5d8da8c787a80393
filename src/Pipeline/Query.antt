-- ===== src/Pipeline/Query.antt =====
-- `_compile` and `query`: what a query text is compiled to.
use seekbase.Base.{
  Text, List, [], ◌∷◌, false, Option, none, some, is_some, if◌then◌else◌, Result, ok, err,
  query_error, ◌>>=◌,
}
use seekbase.Base.Strip.{strip}
use seekbase.Value.{Value}
use seekbase.Operator.Policy.{Policy}
use seekbase.Operator.Registry.{Registry}
use seekbase.Pipeline.Split.{split_pipeline}
use seekbase.Pipeline.Stage.{Cells, classify, stage}
use seekbase.Pipeline.Fuse.{Phase, group, phases_from, all_used}

-- What `query` hands to the store: `run_query` or `run_plan`.
pub data Plan : Type 0 where
  plain : Text → List Value → Plan
  phased : List Phase → Plan

module _ {A : Type 0} (cells : Cells A) (policy : Policy) (ops : Registry) where
  unfoldable pub compile : List Text → List Value → Result (List Phase)
  unfolding stage group phases_from all_used
  compile segments user = do
    staged ← stage cells policy ops segments
    found ← phases_from cells false (group staged) user
    all_used cells found

  unfoldable pub plan_segments : List Text → List Value → Result Plan
  unfolding compile classify
  plan_segments (segment ∷ []) user =
      if is_some (classify ops segment)
      then (do phases ← compile (segment ∷ []) user; ok (phased phases))
      else ok (plain segment user)
  plan_segments segments user = do phases ← compile segments user; ok (phased phases)

  unfoldable pub plan_text : Text → List Value → Result Plan
  unfolding split_pipeline plan_segments
  plan_text [] user = err query_error
  plan_text (c ∷ s) user = do segments ← split_pipeline (c ∷ s); plan_segments segments user

  -- PipelineService.query, up to the call of the store
  unfoldable pub query : Option Text → List Value → Result Plan
  unfolding plan_text strip
  query none user = err query_error
  query (some sql) user = plan_text (strip sql) user
