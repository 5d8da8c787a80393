-- ===== src/Api/Paths.antt =====
-- The paths that every URL library carries as they are: letters, digits, hyphens, underscores and slashes.
use seekbase.Base.{
  ℕ, ◌≡◌, ◌≢◌, refl, sym, append-nil, Text, codes, [], ◌∷◌, ◌++◌, Bool, true, false, ◌||◌, ◌&&◌,
  ◌==◌, leb, arith, Result, ok,
}
use mathlib.Core.Path.{subst}
use seekbase.Base.Strip.{has_char}
use seekbase.Api.Route.{Method}
use seekbase.Api.Client.{Request, http_call}
use seekbase.Api.Client

-- A letter, a digit, a hyphen or an underscore.
abbrev pub is_name_char : ℕ → Bool
is_name_char c =
    leb 97 c && leb c 122 || leb 65 c && leb c 90 || leb 48 c && leb c 57 || c == 45 || c == 95

unfoldable pub is_name : Text → Bool
is_name [] = true
is_name (c ∷ s) = is_name_char c && is_name s

unfoldable pub is_path : Text → Bool
is_path [] = true
is_path (c ∷ s) = (is_name_char c || c == 47) && is_path s

pub is_name-has_char : (id : Text) → is_name id ≡ true → has_char b'/' id ≡ false
unfolding is_name has_char
is_name-has_char [] h = refl
is_name-has_char (c ∷ s) h = ground (arith, h, is_name-has_char s)

is_path-name :
    (id after : Text) → is_name id ≡ true → is_path after ≡ true → is_path (id ++ after) ≡ true
unfolding is_name is_path
is_path-name [] after h k = k
is_path-name (c ∷ s) after h k = ground (arith, h, is_path-name s after)

-- A task id in the request is not empty, and consists of name characters.
abbrev pub IsPlain : Text → Type 0
IsPlain id = (is_name id ≡ true) × (id ≢ [])

-- A request of a known operation, with a plain task id where it has one.
unfoldable pub IsSendable : Request → Type 0
IsSendable (Client.status id) = IsPlain id
IsSendable (Client.task_result id) = IsPlain id
IsSendable (Client.task_cancel id) = IsPlain id
IsSendable (Client.query sql params ds_start ds_end as_task) = Unit
IsSendable (Client.insert t rows) = Unit
IsSendable (Client.delete t where_text params) = Unit
IsSendable (Client.tasks limit) = Unit
IsSendable Client.rebuild = Unit
IsSendable (Client.unknown op) = ⊥

is_path-below :
    (before id after : Text)
    → is_path before ≡ true
    → is_name id ≡ true
    → is_path after ≡ true
    → is_path (before ++ (id ++ after)) ≡ true
unfolding is_path
is_path-below [] id after h k l = is_path-name id after k l
is_path-below (c ∷ before) id after h k l = ground (arith, h, is_path-below before id after)

same_path :
    {m n : Method} {p q : Text}
    → ◌≡◌ {A = Result (Method × Text)} (ok (m, p)) (ok (n, q))
    → is_path p ≡ true
    → is_path q ≡ true
same_path {p = p} {q = q} sent h = let e : p ≡ q = cc in subst (λ t. is_path t ≡ true) e h

-- The paths that HttpExecutor asks for.
pub http_call-is_path :
    (r : Request) (m : Method) (path : Text)
    → IsSendable r
    → http_call r ≡ ok (m, path)
    → is_path path ≡ true
unfolding http_call IsSendable
http_call-is_path (Client.query sql params ds_start ds_end as_task) m path h sent =
    same_path sent (unfold is_path in refl)
http_call-is_path (Client.insert t rows) m path h sent = same_path sent (unfold is_path in refl)
http_call-is_path (Client.delete t where_text params) m path h sent =
    same_path sent (unfold is_path in refl)
http_call-is_path (Client.status id) m path (plain, ne) sent = same_path sent (
    rw (sym (append-nil id)) (
      is_path-below (codes "/v1/tasks/") id [] (unfold is_path in refl) plain
        (unfold is_path in refl)))
http_call-is_path (Client.tasks limit) m path h sent = same_path sent (unfold is_path in refl)
http_call-is_path (Client.task_result id) m path (plain, ne) sent = same_path sent (
    is_path-below (codes "/v1/tasks/") id (codes "/result") (unfold is_path in refl) plain
      (unfold is_path in refl))
http_call-is_path (Client.task_cancel id) m path (plain, ne) sent = same_path sent (
    is_path-below (codes "/v1/tasks/") id (codes "/cancel") (unfold is_path in refl) plain
      (unfold is_path in refl))
http_call-is_path Client.rebuild m path h sent = same_path sent (unfold is_path in refl)
http_call-is_path (Client.unknown op) m path h sent = absurd h
