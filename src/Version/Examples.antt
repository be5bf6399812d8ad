-- ===== src/Version/Examples.antt =====
-- Requests whose version server/src/middleware/api_version.rs finds.
use trieve.Prelude.{str_eq, Option, none, some, ◌≡◌, refl, if◌then◌else◌, ◌+◌, ◌*◌}
use trieve.Errors.{Result, ok}
use trieve.Version.{
  ApiVersion, v2, to_string, Calendar, Response, versioning_date, from_dataset, version_of, call,
}
use trieve.Version.Again.{call-to_string}

-- A time is written as year, month and day here, with two digits for the hour.
abbrev calendar : Calendar
calendar = record {
  v2_versioning_date = some "next year";
  parse = λ text. if str_eq text "2024-07-14" then some 20240714 else none;
  from_ymd = λ y m d. y * 10000 + m * 100 + d;
  and_hms = λ date h m s. date * 100 + h;
}

abbrev service : Option ApiVersion → Result (Response (Option ApiVersion))
service version = ok record { answer = version; x_api_version = none }

abbrev answered : Response (Option ApiVersion)
answered = record { answer = some v2; x_api_version = some "2.0" }

-- The organization is created after the date that counts where the variable cannot be read.
called : call calendar (some 2024071500) (some "v3") service ≡ ok answered
unfolding call version_of from_dataset versioning_date to_string
called = refl

no_dataset_test :
    call calendar none (some "2.0") service ≡ ok record { answer = none; x_api_version = none }
unfolding call version_of
no_dataset_test = refl

call-to_string_example :
    (v : ApiVersion) × (version_of calendar (some 2024071500) (some "v3") ≡ some v)
    × (some "2.0" ≡ some (to_string v))
    × (call calendar (some 2024071500) (some "2.0") service ≡ ok answered)
call-to_string_example = call-to_string calendar 2024071500 (some "v3") service answered called
