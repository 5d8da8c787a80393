-- ===== src/Wire.antt =====
-- seekbase/_wire.py: exceptions over HTTP.
use seekbase.Base.{
  ◌≡◌, ◌≢◌, refl, ℕ, Text, codes, List, [], ◌∷◌, same, if◌then◌else◌, Error, seekbase_error,
  seekbase_unavailable, schema_error, embedder_invalid, read_only_error, query_error,
  permission_denied, not_found, other,
}

pub record Exc : Type 0 where
  pub error : Error
  pub message : Text

-- type(exc).__name__; `name` is that of an exception which is no SeekbaseError
unfoldable pub class_name : Text → Error → Text
class_name name seekbase_error = codes "SeekbaseError"
class_name name seekbase_unavailable = codes "SeekbaseUnavailable"
class_name name schema_error = codes "SchemaError"
class_name name embedder_invalid = codes "EmbedderInvalid"
class_name name read_only_error = codes "ReadOnlyError"
class_name name query_error = codes "QueryError"
class_name name not_found = codes "NotFound"
class_name name permission_denied = codes "PermissionDenied"
class_name name other = name

-- status_for
unfoldable pub status_for : Error → ℕ
status_for seekbase_unavailable = 503
status_for not_found = 404
status_for permission_denied = 403
status_for seekbase_error = 400
status_for schema_error = 400
status_for embedder_invalid = 400
status_for read_only_error = 400
status_for query_error = 400
status_for other = 500

-- the object under the key `error`
pub record ErrorBody : Type 0 where
  pub type : Text
  pub message : Text

-- error_body
unfoldable pub error_body : Text → Exc → ErrorBody
unfolding class_name
error_body name e = record { type = class_name name e.error; message = e.message }

-- _ERROR_TYPES
abbrev pub error_types : List (Text × Error)
error_types =
    (codes "SeekbaseError", seekbase_error)
    ∷ (codes "SeekbaseUnavailable", seekbase_unavailable)
    ∷ (codes "SchemaError", schema_error)
    ∷ (codes "EmbedderInvalid", embedder_invalid)
    ∷ (codes "ReadOnlyError", read_only_error)
    ∷ (codes "QueryError", query_error)
    ∷ (codes "NotFound", not_found)
    ∷ (codes "PermissionDenied", permission_denied)
    ∷ []

unfoldable pub find_error : Text → List (Text × Error) → Error
unfolding same
find_error name [] = seekbase_error
find_error name ((n, e) ∷ types) = if same n name then e else find_error name types

-- exception_from
unfoldable pub exception_from : ErrorBody → Exc
unfolding find_error
exception_from body = record { error = find_error body.type error_types; message = body.message }

-- An exception of the library is the same one, with the same message, behind the wire.
pub exception_from-error_body :
    (name : Text) (e : Exc) → e.error ≢ other → exception_from (error_body name e) ≡ e
unfolding exception_from error_body find_error class_name same
exception_from-error_body name e h = by_class e.error e.message h
  where
    by_class :
        (x : Error) (m : Text)
        → x ≢ other
        → exception_from (error_body name (record { error = x; message = m }))
          ≡ record { error = x; message = m }
    by_class seekbase_error m h = refl
    by_class seekbase_unavailable m h = refl
    by_class schema_error m h = refl
    by_class embedder_invalid m h = refl
    by_class read_only_error m h = refl
    by_class query_error m h = refl
    by_class not_found m h = refl
    by_class permission_denied m h = refl
    by_class other m h = absurd (h refl)
