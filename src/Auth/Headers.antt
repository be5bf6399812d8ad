-- ===== src/Auth/Headers.antt =====
-- server/src/middleware/auth_middleware.rs: what the middleware reads from the request's headers.
use Prim.Native.String.{slice, len}
use text.Mathlib.Text.{starts_with}
use trieve.Prelude.{String, Option, none, some, if◌then◌else◌}

-- `HeaderMap::get` and `to_str`: `none` if the header is missing, `some none` if its value is no
-- visible ASCII text.
abbrev pub HeaderMap : Type 0
HeaderMap = String → Option (Option String)

-- The value of the first of two headers that is there as text.
abbrev pub first_text : HeaderMap → String → String → Option String
first_text headers a b = elim (headers a) [
  | some (some v) ↦ some v
  | _ ↦ elim (headers b) [ some (some v) ↦ some v | _ ↦ none ]
]

-- `value.strip_prefix("Bearer ")`, or the value.
unfoldable pub strip_bearer : String → String
strip_bearer value = if starts_with value "Bearer " then slice value 7 (len value) else value

unfoldable pub get_api_key_from_headers : HeaderMap → Option String
get_api_key_from_headers headers = elim (first_text headers "Authorization" "x-api-key") [
  | none ↦ none
  | some v ↦ some (strip_bearer v)
]

unfoldable pub get_dataset_id_from_headers : HeaderMap → Option String
get_dataset_id_from_headers headers = first_text headers "TR-Dataset" "x-dataset"

unfoldable pub get_org_id_from_headers : HeaderMap → Option String
get_org_id_from_headers headers = first_text headers "TR-Organization" "x-organization"
