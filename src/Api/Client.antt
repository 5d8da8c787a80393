-- ===== src/Api/Client.antt =====
-- seekbase/client.py and seekbase/api/remote.py: the two executors behind one surface.
use seekbase.Base.{
  ℕ, Text, codes, List, [], ◌∷◌, ◌++◌, Bool, true, false, Option, if◌then◌else◌, ltb, ◌⊎◌, inl, inr,
  Result, ok, err, query_error, embedder_invalid,
}
use seekbase.Value.{Value, Dict}
use seekbase.Schema.Data.{Schema, TableSpec}
use seekbase.Wire.{Exc, ErrorBody, exception_from}
use seekbase.Api.Route.{Method, get_method, post_method}

-- `Request.op`, with what each op reads of the request
pub data Request : Type 0 where
  query : Text → List Value → Option Text → Option Text → Bool → Request
  insert : Text → List Dict → Request
  delete : Text → Option Text → List Value → Request
  status : Text → Request
  tasks : ℕ → Request
  task_result : Text → Request
  task_cancel : Text → Request
  rebuild : Request
  unknown : Text → Request

-- The service call that LocalExecutor.execute makes.
pub data Call : Type 0 where
  read_query : Text → List Value → Option Text → Option Text → Call
  submit_query : Text → List Value → Option Text → Option Text → Call
  write_insert : Text → List Dict → Call
  write_delete : Text → Option Text → List Value → Call
  task_status : Text → Call
  task_list : ℕ → Call
  task_rows : Text → Call
  task_stop : Text → Call
  admin_rebuild : Call

-- LocalExecutor.execute
unfoldable pub local_call : Request → Result Call
local_call (query sql params ds_start ds_end as_task) =
    if as_task
    then ok (submit_query sql params ds_start ds_end)
    else ok (read_query sql params ds_start ds_end)
local_call (insert table rows) = ok (write_insert table rows)
local_call (delete table where_text params) = ok (write_delete table where_text params)
local_call (status id) = ok (task_status id)
local_call (tasks limit) = ok (task_list limit)
local_call (task_result id) = ok (task_rows id)
local_call (task_cancel id) = ok (task_stop id)
local_call rebuild = ok admin_rebuild
local_call (unknown op) = err query_error

-- HttpExecutor.execute: the method and the path
unfoldable pub http_call : Request → Result (Method × Text)
http_call (query sql params ds_start ds_end as_task) = ok (post_method, codes "/v1/query")
http_call (insert table rows) = ok (post_method, codes "/v1/insert")
http_call (delete table where_text params) = ok (post_method, codes "/v1/delete")
http_call (status id) = ok (get_method, codes "/v1/tasks/" ++ id)
http_call (tasks limit) = ok (get_method, codes "/v1/tasks")
http_call (task_result id) = ok (get_method, codes "/v1/tasks/" ++ (id ++ codes "/result"))
http_call (task_cancel id) = ok (post_method, codes "/v1/tasks/" ++ (id ++ codes "/cancel"))
http_call rebuild = ok (post_method, codes "/v1/rebuild")
http_call (unknown op) = err query_error

-- HttpExecutor._unwrap: the data, or the exception that is raised
unfoldable pub unwrap {ℓ} : {B : Type ℓ} → ℕ → B → ErrorBody → Exc ⊎ B
unfolding exception_from
unwrap http_status data' e = if ltb http_status 400 then inr data' else inl (exception_from e)

unfoldable pub any_searchable : List TableSpec → Bool
any_searchable [] = false
any_searchable (t ∷ ts) = elim t.searchable [ [] ↦ any_searchable ts | _ ∷ _ ↦ true ]

-- Seekbase.open's test: whether an embedder is used
unfoldable pub open_embedding : Schema → Bool → Result Bool
unfolding any_searchable
open_embedding schema has_embedder =
    if any_searchable schema.tables
    then (if has_embedder then ok true else err embedder_invalid)
    else ok false
