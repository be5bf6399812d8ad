-- ===== src/Version.antt =====
-- server/src/middleware/api_version.rs: the version of the API that a request is answered in.
pub mod Again
pub mod Examples
use trieve.Prelude.{ℕ, String, str_eq, Bool, Option, none, some, unwrap_or, ltb, if◌then◌else◌}
use trieve.Errors.{internal_server_error, Result, ok, err, ok_or}

pub data ApiVersion : Type 0 where
  v1 v2 : ApiVersion

-- `to_string`
unfoldable pub to_string : ApiVersion → String
to_string v1 = "1.0"
to_string v2 = "2.0"

-- `APIVersion::from_request`, by the version among the extensions of the request.
unfoldable pub from_request : Option ApiVersion → Result ApiVersion
from_request version =
    ok_or version
      (internal_server_error "Dataset not found; likely TR-Dataset header was not provided")

-- Dates and times of the library, and the variable V2_VERSIONING_DATE.
pub record Calendar : Type 0 where
  pub v2_versioning_date : Option String
  pub parse : String → Option ℕ
  pub from_ymd : ℕ → ℕ → ℕ → ℕ
  pub and_hms : ℕ → ℕ → ℕ → ℕ → ℕ

-- What the service answers with, and the x-api-version header of the answer.
pub record Response (R : Type 0) : Type 0 where
  pub answer : R
  pub x_api_version : Option String

module _ (calendar : Calendar) where
  unfoldable pub versioning_date : ℕ
  versioning_date =
      calendar.and_hms
        (unwrap_or (calendar.parse (unwrap_or calendar.v2_versioning_date "2024-07-14"))
          (calendar.from_ymd 2024 7 14))
        0 0 0

  -- The argument is the time when the organization of the data set was created.
  unfoldable pub from_dataset : ℕ → ApiVersion
  from_dataset created_at = if ltb versioning_date created_at then v2 else v1

  abbrev pub of_header : ℕ → String → ApiVersion
  of_header created_at v =
      if str_eq v "1.0"
      then v1
      else if str_eq v "2.0"
      then v2
      else if str_eq v "V1"
      then v1
      else if str_eq v "V2"
      then v2
      else if str_eq v "v1"
      then v1
      else if str_eq v "v2"
      then v2
      else from_dataset created_at

  -- The version of a request, by its data set and its X-API-Version header, which is `none` where it
  -- is missing or no text.
  unfoldable pub version_of : Option ℕ → Option String → Option ApiVersion
  version_of none header = none
  version_of (some created_at) none = some (from_dataset created_at)
  version_of (some created_at) (some v) = some (of_header created_at v)

  abbrev pub insert_version : {R : Type 0} → Option ApiVersion → Response R → Response R
  insert_version none response = response
  insert_version (some version) response = record response {
    x_api_version = some (to_string version);
  }

  abbrev pub with_version :
      {R : Type 0} → Option ApiVersion → Result (Response R) → Result (Response R)
  with_version version (err e) = err e
  with_version version (ok response) = ok (insert_version version response)

  -- What the service reads of the version is the one that is put among the extensions.
  unfoldable pub call :
      {R : Type 0}
      → Option ℕ
      → Option String
      → (Option ApiVersion → Result (Response R))
      → Result (Response R)
  call dataset header service =
      let version = version_of dataset header in with_version version (service version)
