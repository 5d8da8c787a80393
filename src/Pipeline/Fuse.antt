-- ===== src/Pipeline/Fuse.antt =====
-- The second part of `_compile`, and `_fuse_duck_run`: contiguous segments of one runtime become one
-- phase.
use seekbase.Base.{
  ℕ, suc, Text, codes, List, [], ◌∷◌, ◌++◌, map, Bool, true, false, Option, none, some, length,
  take, drop, ltb, if◌then◌else◌, Result, ok, err, query_error, ◌>>=◌,
}
use seekbase.Base.Number.{print_nat}
use seekbase.Value.{Value}
use seekbase.Operator.Base.{Operator, is_source}
use seekbase.Pipeline.Split.{count_placeholders}
use seekbase.Pipeline.Stage.{Cells, Staged, duck_op, duck_sql, bash_op}

pub data DuckItem (A : Type 0) : Type 0 where
  op_item : Operator → A → DuckItem A
  sql_item : Text → DuckItem A

-- The inner `while` loops: a longest run of segments of one runtime.
pub data Run (A : Type 0) : Type 0 where
  duck_run : DuckItem A → List (DuckItem A) → Run A
  bash_run : Operator × A → List (Operator × A) → Run A

pub data Phase : Type 0 where
  duck : Text → List Value → Phase
  bash : List (List Text) → Phase

module _ {A : Type 0} where
  unfoldable pub add_duck : DuckItem A → List (Run A) → List (Run A)
  add_duck d [] = duck_run d [] ∷ []
  add_duck d (duck_run e ds ∷ runs) = duck_run d (e ∷ ds) ∷ runs
  add_duck d (bash_run b bs ∷ runs) = duck_run d [] ∷ bash_run b bs ∷ runs

  unfoldable pub add_bash : Operator × A → List (Run A) → List (Run A)
  add_bash b [] = bash_run b [] ∷ []
  add_bash b (bash_run c bs ∷ runs) = bash_run b (c ∷ bs) ∷ runs
  add_bash b (duck_run d ds ∷ runs) = bash_run b [] ∷ duck_run d ds ∷ runs

  unfoldable pub group : List (Staged A) → List (Run A)
  unfolding add_duck add_bash
  group [] = []
  group (duck_op op args ∷ staged) = add_duck (op_item op args) (group staged)
  group (duck_sql sql ∷ staged) = add_duck (sql_item sql) (group staged)
  group (bash_op op args ∷ staged) = add_bash (op, args) (group staged)

-- f"WITH _in AS (SELECT * FROM {prev}) {body}"
abbrev pub with_in : Text → Text → Text
with_in prev body = codes "WITH _in AS (SELECT * FROM " ++ (prev ++ (codes ") " ++ body))

abbrev pub cte_name : ℕ → Text
cte_name n = codes "_s" ++ print_nat n

-- One item of a run: its body, its parameters, and the user's parameters that are left.
abbrev pub Fused : Type 0
Fused = record { body : Text; params : List Value; left : List Value }

module _ {A : Type 0} (cells : Cells A) where
  unfoldable pub fuse_source : Option Text → Operator → A → List Value → Result Fused
  fuse_source (some prev) op args user = err query_error
  fuse_source none op args user = do
    lowered ← cells.lower_source op args
    ok (record { body = lowered.0; params = lowered.1; left = user })

  unfoldable pub fuse_middle : Option Text → Operator → A → List Value → Result Fused
  fuse_middle none op args user = err query_error
  fuse_middle (some prev) op args user = do
    lowered ← cells.lower_middle op (codes "_in") args
    ok (record { body = with_in prev lowered.0; params = lowered.1; left = user })

  abbrev pub sql_body : Option Text → Text → Text
  sql_body none segment = segment
  sql_body (some prev) segment = with_in prev segment

  unfoldable pub fuse_item : Option Text → DuckItem A → List Value → Result Fused
  unfolding fuse_source fuse_middle is_source count_placeholders
  fuse_item prev (op_item op args) user = do
    source ← is_source op
    if source then fuse_source prev op args user else fuse_middle prev op args user
  fuse_item prev (sql_item segment) user =
      let need = count_placeholders segment in
      if ltb (length user) need
      then err query_error
      else ok
          (record { body = sql_body prev segment; params = take need user; left = drop need user })

  abbrev pub FusedRun : Type 0
  FusedRun = record { bodies : List Text; params : List Value; left : List Value }

  -- The `for` loop of `_fuse_duck_run`; `n` counts the bodies before.
  unfoldable pub fuse_items : ℕ → Option Text → List (DuckItem A) → List Value → Result FusedRun
  unfolding fuse_item
  fuse_items n prev [] user = ok (record { bodies = []; params = []; left = user })
  fuse_items n prev (item ∷ items) user = do
    first ← fuse_item prev item user
    rest ← fuse_items (suc n) (some (cte_name n)) items first.left
    ok (record {
      bodies = first.body ∷ rest.bodies;
      params = first.params ++ rest.params;
      left = rest.left;
    })

  -- ", ".join(f"{n} AS ({b})" for n, b in ctes), the names numbered from `n`
  unfoldable pub join_ctes : ℕ → List Text → Text
  join_ctes n [] = []
  join_ctes n (b ∷ []) = cte_name n ++ (codes " AS (" ++ (b ++ codes ")"))
  join_ctes n (b ∷ c ∷ bodies) =
      cte_name n ++ (codes " AS (" ++ (b ++ (codes "), " ++ join_ctes (suc n) (c ∷ bodies))))

  -- `last` is the number of the last body
  unfoldable pub with_sql : ℕ → List Text → Text
  unfolding join_ctes
  with_sql last bodies =
      codes "WITH " ++ (join_ctes 0 bodies ++ (codes " SELECT * FROM " ++ cte_name last))

  -- _fuse_duck_run
  unfoldable pub fuse_duck_run :
      DuckItem A → List (DuckItem A) → List Value → Bool → Result (Phase × List Value)
  unfolding fuse_items with_sql
  fuse_duck_run item items user from_bridge = do
    fused ← fuse_items 0 (if from_bridge then some (codes "_bridge") else none) (item ∷ items) user
    ok (duck (with_sql (length items) fused.bodies) fused.params, fused.left)

  unfoldable pub bash_phase : Operator × A → List (Operator × A) → Phase
  bash_phase b bs = bash (map (λ (op, args). cells.argv op args) (b ∷ bs))

  -- The outer `while` loop; `started` says that a phase stands before.
  unfoldable pub phases_from : Bool → List (Run A) → List Value → Result (List Phase × List Value)
  unfolding fuse_duck_run bash_phase
  phases_from started [] user = ok ([], user)
  phases_from false (bash_run b bs ∷ runs) user = err query_error
  phases_from true (bash_run b bs ∷ runs) user = do
    rest ← phases_from true runs user
    ok (bash_phase b bs ∷ rest.0, rest.1)
  phases_from started (duck_run d ds ∷ runs) user = do
    first ← fuse_duck_run d ds user started
    rest ← phases_from true runs first.1
    ok (first.0 ∷ rest.0, rest.1)

  unfoldable pub all_used : List Phase × List Value → Result (List Phase)
  all_used (phases, []) = ok phases
  all_used (phases, v ∷ user) = err query_error
