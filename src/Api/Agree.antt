-- ===== src/Api/Agree.antt =====
-- The paths that the HTTP client asks for lead to the endpoints that it means.
use seekbase.Base.{
  ℕ, ◌≡◌, refl, ap, ◌≢◌, Text, codes, List, [], ◌∷◌, ◌++◌, false, Option, none, some, same, arith,
  ok,
}
use seekbase.Base.Strip.{rstrip_by, cons_unless, has_char}
use seekbase.Tasks.Log.{split_on}
use seekbase.Api.Route.{
  is_slash, lstrip_slashes, segments, match_segments, match_segment, param_name, drop_brace,
  find_endpoint, resolve, Endpoint, Params, Method,
}
use seekbase.Api.Route
use seekbase.Api.Client.{Request, http_call}
use seekbase.Api.Paths.{IsSendable, is_name-has_char}
use seekbase.Api.Client

rstrip_by-has_char : (id : Text) → has_char b'/' id ≡ false → rstrip_by is_slash id ≡ id
unfolding rstrip_by has_char cons_unless
rstrip_by-has_char [] h = refl
rstrip_by-has_char (c ∷ []) h = ground (arith, h)
rstrip_by-has_char (c ∷ d ∷ s) h = rw (rstrip_by-has_char (d ∷ s) (ground (arith, h)))

rstrip_by-append :
    (a : Text) (x : ℕ) (b : Text)
    → rstrip_by is_slash (x ∷ b) ≡ x ∷ b
    → rstrip_by is_slash (a ++ x ∷ b) ≡ a ++ x ∷ b
unfolding rstrip_by cons_unless
rstrip_by-append [] x b h = h
rstrip_by-append (c ∷ []) x b h = rw (rstrip_by-append [] x b h)
rstrip_by-append (c ∷ d ∷ a) x b h = rw (rstrip_by-append (d ∷ a) x b h)

split_on-append :
    (id b : Text)
    → has_char b'/' id ≡ false
    → split_on b'/' (id ++ b'/' ∷ b) ≡ (id, (split_on b'/' b).0 ∷ (split_on b'/' b).1)
unfolding split_on has_char
split_on-append [] b h = refl
split_on-append (c ∷ s) b h = rw (split_on-append s b (ground (arith, h))) (ground (arith, h))

split_on-has_char : (id : Text) → has_char b'/' id ≡ false → split_on b'/' id ≡ (id, [])
unfolding split_on has_char
split_on-has_char [] h = refl
split_on-has_char (c ∷ s) h = rw (split_on-has_char s (ground (arith, h))) (ground (arith, h))

segments-status :
    (id : Text)
    → has_char b'/' id ≡ false
    → id ≢ []
    → segments (codes "/v1/tasks/" ++ id) ≡ codes "v1" ∷ codes "tasks" ∷ id ∷ []
unfolding segments lstrip_slashes rstrip_by split_on cons_unless
segments-status [] h ne = absurd (ne refl)
segments-status (c ∷ s) h ne =
    rw (rstrip_by-has_char (c ∷ s) h) (rw (split_on-has_char (c ∷ s) h) refl)

segments-below :
    (id name : Text) (x : ℕ)
    → has_char b'/' id ≡ false
    → id ≢ []
    → rstrip_by is_slash (b'/' ∷ x ∷ name) ≡ b'/' ∷ x ∷ name
    → split_on b'/' (x ∷ name) ≡ (x ∷ name, [])
    → segments (codes "/v1/tasks/" ++ (id ++ b'/' ∷ x ∷ name))
      ≡ codes "v1" ∷ codes "tasks" ∷ id ∷ (x ∷ name) ∷ []
unfolding segments lstrip_slashes rstrip_by split_on cons_unless
segments-below [] name x h ne r s = absurd (ne refl)
segments-below (c ∷ id) name x h ne r s =
    rw (rstrip_by-append (c ∷ id) b'/' (x ∷ name) r)
      (rw (split_on-append (c ∷ id) (x ∷ name) h) (rw s refl))

-- The endpoint and the parameters that a request means.
abbrev pub meant : Request → Option (Endpoint × Params)
meant (Client.query sql params ds_start ds_end as_task) = some (Route.query, [])
meant (Client.insert t rows) = some (Route.insert, [])
meant (Client.delete t where_text params) = some (Route.delete, [])
meant (Client.status id) = some (Route.tasks_status, (codes "id", id) ∷ [])
meant (Client.tasks limit) = some (Route.tasks_list, [])
meant (Client.task_result id) = some (Route.tasks_result, (codes "id", id) ∷ [])
meant (Client.task_cancel id) = some (Route.tasks_cancel, (codes "id", id) ∷ [])
meant Client.rebuild = some (Route.rebuild, [])
meant (Client.unknown op) = none

abbrev found_by : Method → List Text → Option (Endpoint × Params)
found_by m path = find_endpoint m path Route.endpoints

-- For every request of a known operation, with a plain task id where it has one, HttpExecutor sends
-- a method and a path that the server resolves to the endpoint and the parameters that are meant.
pub resolve-http_call :
    (r : Request)
    → IsSendable r
    → (m : Method) × (path : Text) × (http_call r ≡ ok (m, path)) × (resolve m path ≡ meant r)
unfolding http_call resolve find_endpoint match_segments match_segment param_name drop_brace same
    segments lstrip_slashes rstrip_by split_on cons_unless IsSendable
resolve-http_call (Client.query sql params ds_start ds_end as_task) h =
    (Route.post_method, codes "/v1/query", refl, refl)
resolve-http_call (Client.insert t rows) h = (Route.post_method, codes "/v1/insert", refl, refl)
resolve-http_call (Client.delete t where_text params) h =
    (Route.post_method, codes "/v1/delete", refl, refl)
resolve-http_call (Client.status id) (plain, ne) = (
  Route.get_method,
  codes "/v1/tasks/" ++ id,
  refl,
  ap (found_by Route.get_method) (segments-status id (is_name-has_char id plain) ne),
)
resolve-http_call (Client.tasks limit) h = (Route.get_method, codes "/v1/tasks", refl, refl)
resolve-http_call (Client.task_result id) (plain, ne) = (
  Route.get_method,
  codes "/v1/tasks/" ++ (id ++ codes "/result"),
  refl,
  ap (found_by Route.get_method)
      (segments-below id (codes "esult") b'r' (is_name-has_char id plain) ne refl refl),
)
resolve-http_call (Client.task_cancel id) (plain, ne) = (
  Route.post_method,
  codes "/v1/tasks/" ++ (id ++ codes "/cancel"),
  refl,
  ap (found_by Route.post_method)
      (segments-below id (codes "ancel") b'c' (is_name-has_char id plain) ne refl refl),
)
resolve-http_call Client.rebuild h = (Route.post_method, codes "/v1/rebuild", refl, refl)
resolve-http_call (Client.unknown op) h = absurd h
