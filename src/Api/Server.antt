-- ===== src/Api/Server.antt =====
-- seekbase/server.py: what the ASGI app answers, and seekbase/api/query.py: how a query is answered.
use seekbase.Base.{
  ℕ, Text, codes, ◌++◌, Bool, true, false, Option, none, some, same, if◌then◌else◌, Error, Result,
  ok, err, other, [], ◌⊎◌, inl, inr,
}
use seekbase.Wire.{Exc, ErrorBody, status_for, error_body}
use seekbase.Api.Route.{Method, Endpoint, Params, resolve}

-- a JSON answer: a body of the endpoint's own, or an error
pub data Answer (B : Type 0) : Type 0 where
  body : B → Answer B
  error : ErrorBody → Answer B

-- what an endpoint returns or raises
pub data Handled (B : Type 0) : Type 0 where
  returned : ℕ → B → Handled B
  raised : Exc → Handled B

-- The header `Authorization`, empty if it is missing.
unfoldable pub authorized : Option Text → Text → Bool
unfolding same
authorized none header = true
authorized (some api_key) header = same header (codes "Bearer " ++ api_key)

abbrev pub unauthorized : ErrorBody
unauthorized = record { type = codes "Unauthorized"; message = codes "bad api key" }

abbrev pub no_route : Text → ErrorBody
no_route path = record { type = codes "NotFound"; message = path }

module _ {B : Type 0} where
  -- the two `except` clauses: an exception that is no SeekbaseError is reported as `Internal`
  unfoldable pub answer_error : Error → Text → ℕ × Answer B
  unfolding status_for error_body
  answer_error other m = (500, error (record { type = codes "Internal"; message = m }))
  answer_error e m = (status_for e, error (error_body [] (record { error = e; message = m })))

  unfoldable pub answer : Handled B → ℕ × Answer B
  unfolding answer_error
  answer (returned status b) = (status, body b)
  answer (raised x) = answer_error x.error x.message

  unfoldable pub dispatch :
      (Endpoint → Params → Handled B) → Text → Option (Endpoint × Params) → ℕ × Answer B
  unfolding answer
  dispatch handle path none = (404, error (no_route path))
  dispatch handle path (some (endpoint, params)) = answer (handle endpoint params)

  -- app, for a request of type http
  unfoldable pub app :
      Option Text → (Endpoint → Params → Handled B) → Text → Method → Text → ℕ × Answer B
  unfolding authorized dispatch resolve
  app api_key handle header method path =
      if authorized api_key header
      then dispatch handle path (resolve method path)
      else (401, error unauthorized)

-- seekbase/api/query.py: `submitted` and `adopted` are the tasks that would be made, `finished` is
-- what the query gives if it ends within `wait_ms`.
unfoldable pub handle_query {ℓ} :
    {T R : Type ℓ} → Bool → T → Option (Result R) → T → Result (ℕ × (T ⊎ R))
handle_query true submitted finished adopted = ok (202, inl submitted)
handle_query false submitted (some (ok rows)) adopted = ok (200, inr rows)
handle_query false submitted (some (err x)) adopted = err x
handle_query false submitted none adopted = ok (202, inl adopted)
