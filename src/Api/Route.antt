-- ===== src/Api/Route.antt =====
-- seekbase/api/_route.py and seekbase/api/__init__.py: matching a path against the endpoints.
use seekbase.Base.{
  ℕ, Text, codes, List, [], ◌∷◌, Bool, true, false, Option, none, some, same, ◌==◌, if◌then◌else◌,
}
use seekbase.Base.Strip.{rstrip_by}
use seekbase.Tasks.Log.{split_on}

abbrev pub is_slash : ℕ → Bool
is_slash c = c == b'/'

unfoldable pub lstrip_slashes : Text → Text
lstrip_slashes [] = []
lstrip_slashes (c ∷ s) = let rest = lstrip_slashes s in if is_slash c then rest else c ∷ s

abbrev pub pieces : Text × List Text → List Text
pieces (first, rest) = first ∷ rest

-- path.strip("/").split("/")
unfoldable pub segments : Text → List Text
unfolding lstrip_slashes rstrip_by split_on
segments path = pieces (split_on b'/' (rstrip_by is_slash (lstrip_slashes path)))

-- the text between the braces of a segment `{param}`
unfoldable pub drop_brace : Text → Option Text
drop_brace [] = none
drop_brace (c ∷ []) = if c == b'}' then some [] else none
drop_brace (c ∷ d ∷ s) = elim (drop_brace (d ∷ s)) [ none ↦ none | some name ↦ some (c ∷ name) ]

unfoldable pub param_name : Text → Option Text
unfolding drop_brace
param_name [] = none
param_name (c ∷ s) = if c == b'{' then drop_brace s else none

abbrev pub Params : Type 0
Params = List (Text × Text)

abbrev pub add_param : Text → Text → Option Params → Option Params
add_param name value none = none
add_param name value (some params) = some ((name, value) ∷ params)

unfoldable pub match_segment : Option Text → Text → Text → Option Params → Option Params
unfolding same
match_segment (some name) template path rest = add_param name path rest
match_segment none template path rest = if same template path then rest else none

-- lists of different lengths do not match
unfoldable pub match_segments : List Text → List Text → Option Params
unfolding match_segment param_name
match_segments [] [] = some []
match_segments [] (p ∷ path) = none
match_segments (t ∷ template) [] = none
match_segments (t ∷ template) (p ∷ path) =
    match_segment (param_name t) t p (match_segments template path)

-- match_path
unfoldable pub match_path : Text → Text → Option Params
unfolding segments match_segments
match_path template path = match_segments (segments template) (segments path)

pub data Method : Type 0 where
  get_method post_method other_method : Method

pub data Endpoint : Type 0 where
  query insert delete tasks_result tasks_cancel tasks_status tasks_list writes rebuild health :
      Endpoint

abbrev pub method_of : Endpoint → Method
method_of query = post_method
method_of insert = post_method
method_of delete = post_method
method_of tasks_result = get_method
method_of tasks_cancel = post_method
method_of tasks_status = get_method
method_of tasks_list = get_method
method_of writes = get_method
method_of rebuild = post_method
method_of health = get_method

abbrev pub path_of : Endpoint → Text
path_of query = codes "/v1/query"
path_of insert = codes "/v1/insert"
path_of delete = codes "/v1/delete"
path_of tasks_result = codes "/v1/tasks/{id}/result"
path_of tasks_cancel = codes "/v1/tasks/{id}/cancel"
path_of tasks_status = codes "/v1/tasks/{id}"
path_of tasks_list = codes "/v1/tasks"
path_of writes = codes "/v1/writes/{ticket}"
path_of rebuild = codes "/v1/rebuild"
path_of health = codes "/v1/health"

-- ENDPOINTS
abbrev pub endpoints : List Endpoint
endpoints =
    query ∷ insert ∷ delete ∷ tasks_result ∷ tasks_cancel ∷ tasks_status ∷ tasks_list ∷ writes
    ∷ rebuild ∷ health ∷ []

abbrev pub same_method : Method → Method → Bool
same_method get_method get_method = true
same_method post_method post_method = true
same_method other_method other_method = true
same_method _ _ = false

unfoldable pub find_endpoint : Method → List Text → List Endpoint → Option (Endpoint × Params)
unfolding match_segments segments
find_endpoint method path [] = none
find_endpoint method path (e ∷ es) =
    let rest = find_endpoint method path es in
    if same_method (method_of e) method
    then (elim (match_segments (segments (path_of e)) path) [
      | none ↦ rest
      | some params ↦ some (e, params)
    ])
    else rest

-- resolve
unfoldable pub resolve : Method → Text → Option (Endpoint × Params)
unfolding find_endpoint segments
resolve method path = find_endpoint method (segments path) endpoints
