-- ===== src/Api/Same.antt =====
-- A request over HTTP makes the service call that it makes locally.
use seekbase.Base.{◌≡◌, some, ok}
use seekbase.Api.Route.{Method}
use seekbase.Api.Route
use seekbase.Api.Client.{Request, Call, local_call}
use seekbase.Api.Client
use seekbase.Api.Handlers.{Body, no_body, call_of, default_limit, http_body}
use seekbase.Api.Agree.{meant}

-- The limit of a list of tasks is not sent.
abbrev pub unlimited : Request → Request
unlimited (Client.query sql params ds_start ds_end as_task) =
    Client.query sql params ds_start ds_end as_task
unlimited (Client.insert table rows) = Client.insert table rows
unlimited (Client.delete table where_text params) = Client.delete table where_text params
unlimited (Client.status id) = Client.status id
unlimited (Client.tasks limit) = Client.tasks default_limit
unlimited (Client.task_result id) = Client.task_result id
unlimited (Client.task_cancel id) = Client.task_cancel id
unlimited Client.rebuild = Client.rebuild
unlimited (Client.unknown op) = Client.unknown op

abbrev sent_body : Method → Request → Body
sent_body m r = elim m [ Route.post_method ↦ http_body r | _ ↦ no_body ]

verb : Request → Method
verb (Client.status id) = Route.get_method
verb (Client.tasks limit) = Route.get_method
verb (Client.task_result id) = Route.get_method
verb r = Route.post_method

abbrev MakesCall : Request → Method → Type 0
MakesCall r m =
    (c : Call) × (call_of (sent_body m r) (meant r) ≡ some c) × (local_call (unlimited r) ≡ ok c)
