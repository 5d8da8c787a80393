-- ===== src/Api/Handlers.antt =====
-- seekbase/api/*.py: the service call that each endpoint makes, and the body that HttpExecutor sends.
-- What the calls return is printed by `to_wire` (Tasks.Record).
use seekbase.Base.{
  ℕ, Text, codes, List, [], ◌∷◌, Bool, false, Option, none, some, same, if◌then◌else◌,
}
use seekbase.Value.{Value, Dict}
use seekbase.Api.Route.{Method, Endpoint, Params, resolve}
use seekbase.Api.Route
use seekbase.Api.Client.{
  Request, Call, read_query, submit_query, write_insert, write_delete, task_status, task_list,
  task_rows, task_stop, admin_rebuild,
}
use seekbase.Api.Client

-- What `body.get` gives for the keys that a handler reads; `none` is None.
pub record Body : Type 0 where
  pub sql : Option Text
  pub params : Option (List Value)
  pub ds_start : Option Text
  pub ds_end : Option Text
  pub as_task : Bool
  pub table : Option Text
  pub rows : Option (List Dict)
  pub where_text : Option Text

abbrev pub no_body : Body
no_body = record {
  sql = none;
  params = none;
  ds_start = none;
  ds_end = none;
  as_task = false;
  table = none;
  rows = none;
  where_text = none;
}

-- body.get(key) or []
abbrev pub or_empty : {A : Type 0} → Option (List A) → List A
or_empty none = []
or_empty (some l) = l

-- params[name]
unfoldable pub param : Text → Params → Option Text
unfolding same
param name [] = none
param name ((n, v) ∷ ps) = if same n name then some v else param name ps

abbrev pub with_text : Option Text → (Text → Call) → Option Call
with_text none call = none
with_text (some t) call = some (call t)

-- the default `limit` of TaskService.list
abbrev pub default_limit : ℕ
default_limit = 50

-- The calls of the handlers. A missing `sql` or `table` is passed on as None, and is left out here.
abbrev pub query_call : Body → Option Call
query_call b = with_text b.sql λ sql.
    if b.as_task
    then submit_query sql (or_empty b.params) b.ds_start b.ds_end
    else read_query sql (or_empty b.params) b.ds_start b.ds_end

abbrev pub insert_call : Body → Option Call
insert_call b = with_text b.table λ name. write_insert name (or_empty b.rows)

abbrev pub delete_call : Body → Option Call
delete_call b = with_text b.table λ name. write_delete name b.where_text (or_empty b.params)

abbrev pub list_call : Option Call
list_call = some (task_list default_limit)

unfoldable pub status_call : Params → Option Call
unfolding param
status_call ps = with_text (param (codes "id") ps) task_status

unfoldable pub result_call : Params → Option Call
unfolding param
result_call ps = with_text (param (codes "id") ps) task_rows

unfoldable pub cancel_call : Params → Option Call
unfolding param
cancel_call ps = with_text (param (codes "id") ps) task_stop

-- WriteService.status is the status of the task
unfoldable pub writes_call : Params → Option Call
unfolding param
writes_call ps = with_text (param (codes "ticket") ps) task_status

abbrev pub rebuild_call : Option Call
rebuild_call = some admin_rebuild

-- `db.ready` calls no service
abbrev pub health_call : Option Call
health_call = none

-- endpoint.handle
unfoldable pub handler_call : Endpoint → Body → Params → Option Call
unfolding status_call result_call cancel_call writes_call
handler_call Route.query b ps = query_call b
handler_call Route.insert b ps = insert_call b
handler_call Route.delete b ps = delete_call b
handler_call Route.tasks_result b ps = result_call ps
handler_call Route.tasks_cancel b ps = cancel_call ps
handler_call Route.tasks_status b ps = status_call ps
handler_call Route.tasks_list b ps = list_call
handler_call Route.writes b ps = writes_call ps
handler_call Route.rebuild b ps = rebuild_call
handler_call Route.health b ps = health_call

abbrev pub call_of : Body → Option (Endpoint × Params) → Option Call
call_of b none = none
call_of b (some (e, ps)) = handler_call e b ps

-- the way of a request from the client to the service; only a POST has a body. `deliver` is what HTTP
-- makes of the path that the client asks for: the `path` of the server's scope.
unfoldable pub server_call : (Text → Text) → Method → Text → Body → Option Call
unfolding resolve handler_call
server_call deliver method path b =
    call_of (elim method [ Route.post_method ↦ b | _ ↦ no_body ]) (resolve method (deliver path))

-- HttpExecutor.execute: the body of each POST
unfoldable pub http_body : Request → Body
http_body (Client.query sql params ds_start ds_end as_task) = record no_body {
  sql = some sql;
  params = some params;
  ds_start = ds_start;
  ds_end = ds_end;
  as_task = as_task;
}
http_body (Client.insert table rows) = record no_body { table = some table; rows = some rows }
http_body (Client.delete table where_text params) = record no_body {
  table = some table;
  where_text = where_text;
  params = some params;
}
http_body (Client.status id) = no_body
http_body (Client.tasks limit) = no_body
http_body (Client.task_result id) = no_body
http_body (Client.task_cancel id) = no_body
http_body Client.rebuild = no_body
http_body (Client.unknown op) = no_body
