-- ===== src/Errors.antt =====
-- server/src/errors.rs: the errors of the server and the HTTP responses they turn into.
use trieve.Prelude.{ℕ, String, Option, none, some, unwrap_or, ◌≡◌, ◌≢◌, refl, ◌⊎◌, inl, inr}
use Prim.Native.String.{◌++◌ as str_append}

pub data ServiceError : Type 0 where
  internal_server_error bad_request duplicate_tracking_id : String → ServiceError
  unauthorized forbidden : ServiceError
  not_found json_deserialize_error payload_too_large : String → ServiceError

pub data Result {ℓ} (A : Type ℓ) : Type ℓ where
  ok : A → Result A
  err : ServiceError → Result A

-- `option.ok_or(e)`
abbrev pub ok_or {ℓ} : {A : Type ℓ} → Option A → ServiceError → Result A
ok_or none e = err e
ok_or (some a) e = ok a

-- `result.map_err(change)`
abbrev pub map_err {ℓ} : {A : Type ℓ} (change : ServiceError → ServiceError) → Result A → Result A
map_err change (err error) = err (change error)
map_err change (ok value) = ok value

-- `result?` with the rest of the function, for `do` blocks.
infixl 5 ◌>>=◌
abbrev pub ◌>>=◌ {ℓ ℓ'} : {A : Type ℓ} {B : Type ℓ'} (result : Result A) → (A → Result B) → Result B
err error >>= rest = err error
ok value >>= rest = rest value

-- The derived `Display` text.
unfoldable pub display : ServiceError → String
display (internal_server_error message) = str_append "Internal Server Error: " message
display (bad_request message) = str_append "BadRequest: " message
display (duplicate_tracking_id id) = "BadRequest: Duplicate Tracking Id Found"
display unauthorized = "Unauthorized"
display forbidden = "Forbidden"
display (not_found message) = "Not Found"
display (json_deserialize_error message) = str_append "Json Deserialization Error: " message
display (payload_too_large message) = "Payload Too Large"

pub record ErrorResponse : Type 0 where
  pub status : ℕ
  pub message : String

-- `debug` is the derived `Debug` text of a `String`.
unfoldable pub error_response : (String → String) → ServiceError → ErrorResponse
error_response debug (internal_server_error message) = record { status = 500; message = message }
error_response debug (bad_request message) = record { status = 400; message = message }
error_response debug (duplicate_tracking_id id) = record {
  status = 400;
  message = str_append "Stoped overwriting data, Duplicate Tracking Id " (debug id);
}
error_response debug unauthorized = record { status = 401; message = "Unauthorized" }
error_response debug forbidden = record { status = 403; message = "Forbidden" }
error_response debug (not_found message) = record {
  status = 404;
  message = str_append "Not Found: " message;
}
error_response debug (json_deserialize_error message) = record {
  status = 400;
  message = str_append "Json Deserialization Error: " message;
}
error_response debug (payload_too_large message) = record { status = 413; message = message }

-- `diesel::result::Error`, as far as the conversion looks into it.
pub data DbError : Type 0 where
  unique_violation : Option String → String → DbError
  other_database_error other_error : DbError

unfoldable pub from_db_error : DbError → ServiceError
from_db_error (unique_violation details message) = bad_request (unwrap_or details message)
from_db_error other_database_error =
    internal_server_error "Unknown DB Error. Please try again later"
from_db_error other_error = internal_server_error "Internal Server Error. Please try again later"

pub err-ne-ok : {A : Type 0} {e : ServiceError} {a : A} → err e ≢ ok a
err-ne-ok h = cc

pub ok-injective : {A : Type 0} {a b : A} → ok a ≡ ok b → a ≡ b
ok-injective h = cc

-- To split on a computed result and keep the equation.
pub Result-cases {ℓ} :
    {A : Type ℓ} (r : Result A) → ((a : A) × (r ≡ ok a)) ⊎ ((e : ServiceError) × (r ≡ err e))
Result-cases (ok a) = inl (a, refl)
Result-cases (err e) = inr (e, refl)

-- How a call ends: an `expect` or an `unwrap` that fails panics.
pub data Outcome (A : Type 0) : Type 0 where
  returned : Result A → Outcome A
  panicked : Outcome A

abbrev pub chain : {A B : Type 0} → Outcome A → (A → Outcome B) → Outcome B
chain panicked f = panicked
chain (returned (err e)) f = returned (err e)
chain (returned (ok a)) f = f a
