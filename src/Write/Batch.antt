-- ===== src/Write/Batch.antt =====
-- `_process_batch`: the worker executes a batch in order, refreshes each touched text index once, and
-- then records one born-done task for each operation that succeeded.
use seekbase.Base.{
  ℕ, suc, Text, codes, List, [], ◌∷◌, Option, none, some, member, if◌then◌else◌, Result, ok, err,
}
use seekbase.Schema.Data.{Schema}
use seekbase.Tasks.Record.{Task}
use seekbase.Tasks.Log.{Log, append}
use seekbase.Tasks.Drive.{done}
use seekbase.Write.Execute.{World, Engine, Op, insert, delete, Outcome, inserted, deleted, execute}

-- What `_execute_one` returned or raised for each operation, in order.
unfoldable pub run_ops : Schema → List (World × Op) → Engine → List (Result (Op × Outcome)) × Engine
unfolding execute
run_ops schema [] e = ([], e)
run_ops schema ((w, op) ∷ ops) e =
    let (r, e') = execute w schema op e in
    let (rs, last) = run_ops schema ops e' in
    (elim r [ ok out ↦ ok (op, out) | err x ↦ err x ] ∷ rs, last)

abbrev pub add_new : Text → List Text → List Text
add_new name names = if member name names then names else name ∷ names

abbrev pub add_touched : Result (Op × Outcome) → List Text → List Text
add_touched (ok (op, inserted (some name))) names = add_new name names
add_touched (ok (op, inserted none)) names = names
add_touched (ok (op, deleted n)) names = names
add_touched (err x) names = names

-- fts_tables
unfoldable pub touched : List (Result (Op × Outcome)) → List Text
unfolding member
touched [] = []
touched (r ∷ rs) = add_touched r (touched rs)

abbrev pub kind : Op → Text
kind (insert name rows skip) = codes "insert"
kind (delete name where_text) = codes "delete"

abbrev pub matched_of : Outcome → Option ℕ
matched_of (inserted name) = none
matched_of (deleted n) = some n

abbrev pub born_done : Text → Text → Op × Outcome → Task
born_done ts id (op, out) = record {
  id = id;
  op = kind op;
  state = done;
  error = none;
  matched = matched_of out;
  stats = none;
  query = none;
  rows = none;
  submitted_at = some ts;
  finished_at = some ts;
}

-- What each future is resolved with; `ids n` is the n-th new task id.
unfoldable pub resolve_all :
    Text → (ℕ → Text) → ℕ → List (Result (Op × Outcome)) → List (Result Task)
resolve_all ts ids n [] = []
resolve_all ts ids n (ok out ∷ rs) = ok (born_done ts (ids n) out) ∷ resolve_all ts ids (suc n) rs
resolve_all ts ids n (err x ∷ rs) = err x ∷ resolve_all ts ids n rs

unfoldable pub log_tasks : List (Result Task) → Log → Log
unfolding append
log_tasks [] log = log
log_tasks (ok t ∷ rs) log = log_tasks rs (append t log)
log_tasks (err x ∷ rs) log = log_tasks rs log

pub record BatchResult : Type 0 where
  pub engine : Engine
  pub refreshed : List Text
  pub futures : List (Result Task)
  pub log : Log

-- _process_batch
unfoldable pub process_batch :
    Schema → Text → (ℕ → Text) → List (World × Op) → Engine → Log → BatchResult
unfolding run_ops touched resolve_all log_tasks
process_batch schema ts ids ops e log =
    let (rs, e') = run_ops schema ops e in
    let futures = resolve_all ts ids 0 rs in
    record { engine = e'; refreshed = touched rs; futures = futures; log = log_tasks futures log }
