-- ===== src/Auth/Examples.antt =====
-- Requests that go through the middleware of server/src/middleware/auth_middleware.rs.
use trieve.Prelude.{
  Option, ◌≡◌, ◌⊎◌, refl, true, none, some, [], ◌∷◌, String, str_eq, if◌then◌else◌, pos,
}
use trieve.Errors.{ok, err, bad_request}
use trieve.Auth.{admin, from_i32, UserOrganization, SlimUser, UserApiKey}
use trieve.Auth.Headers.{
  HeaderMap, get_api_key_from_headers, get_dataset_id_from_headers, strip_bearer,
}
use trieve.Auth.ApiKey.{KeyStore, by_argon2, get_user_from_api_key, Row, user_of}
use trieve.Auth.Middleware.{
  DatasetAndOrg, Extensions, Request, Services, admits, promote, check_api_key, find_org_role,
  with_dataset, authorize, load_dataset, auth_with_api_key, call,
}
use trieve.Auth.Gate.{admin_only, InScope, check_api_key_sound}
use trieve.Auth.Call.{LoggedIn, MayAdminister, call_admin}
use trieve.Auth.ReadOnly.{FoundReadOnly, IsPowerless, get_user_from_api_key-IsPowerless}
use trieve.Auth.Login.{AdminLogin, auth_with_api_key_sound}

abbrev membership : UserOrganization
membership = record { id = 1; user_id = 2; organization_id = 5; role = pos 0 }

abbrev jo : SlimUser
jo = record { id = 2; profile = "jo"; user_orgs = membership ∷ [] }

-- A key for one route of one organization.
abbrev scoped : UserApiKey
scoped = record {
  role = pos 1;
  dataset_ids = none;
  organization_ids = some (some "5" ∷ []);
  scopes = some (some "POST /api/chunk" ∷ []);
}

abbrev place : DatasetAndOrg
place = record { dataset_id = 7; organization_id = 5 }

abbrev services : Services
services = record {
  session_user = none;
  admin_api_key = none;
  parse_uuid = λ text. if str_eq text "5" then some 5 else if str_eq text "7" then some 7 else none;
  uuid_to_string = λ id. "5";
  owner_of_org = λ id. ok jo;
  owner_of_dataset = λ id. ok jo;
  user_from_api_key =
      λ key. if str_eq key "tr-key" then ok (jo, scoped) else err (bad_request "no");
  get_dataset_and_organization = λ id org. ok place;
}

abbrev headers : HeaderMap
headers name =
    if str_eq name "TR-Dataset"
    then some (some "7")
    else if str_eq name "Authorization"
    then some (some "Bearer tr-key")
    else none

abbrev request : Request
request = record { method = "POST"; matched_path = "/api/chunk"; headers = headers }

checked :
    check_api_key services request place (some scoped) (some jo) ≡ ok (promote services 5 (some jo))
unfolding check_api_key
checked = refl

check_api_key_sound_example :
    (admits scoped.organization_ids (services.uuid_to_string 5) ≡ true)
    × (admits scoped.dataset_ids (services.uuid_to_string 7) ≡ true)
    × ((scoped.scopes ≡ none) × (promote services 5 (some jo) ≡ some jo)
        ⊎ InScope request (some scoped)
          × (promote services 5 (some jo) ≡ promote services 5 (some jo)))
check_api_key_sound_example =
    check_api_key_sound services request place scoped (some jo) (promote services 5 (some jo))
      checked

abbrev promoted : SlimUser
promoted = record jo { user_orgs = record membership { role = pos 1 } ∷ [] }

abbrev found : Extensions
found = record {
  user = some jo;
  dataset = some place;
  org_role = some (record { user = promoted; role = admin });
}

authorized : authorize services request (some jo) (some scoped) ≡ ok found
unfolding authorize with_dataset check_api_key find_org_role load_dataset
    get_dataset_id_from_headers from_i32
authorized = refl

given : admin_only found ≡ ok promoted
unfolding admin_only
given = refl

abbrev row : Row
row = record {
  user_id = 2;
  profile = "jo";
  user_org = record membership { role = pos 2 };
  api_key = record scoped { role = pos 0 };
}

abbrev store : KeyStore
store = record {
  hash_api_key = λ key. "blake3";
  hash_argon2_api_key = λ key. ok "argon2";
  rows_by_blake3 = λ hash. some [];
  rows_by_argon2 = λ hash. some (row ∷ []);
  set_blake3 = λ argon2 blake3. true;
}

all_read_only :
    (hash : String)
    → store.hash_argon2_api_key "tr-key" ≡ ok hash
    → FoundReadOnly (store.rows_by_argon2 hash)
all_read_only hash h = (refl, tt)

loaded : get_user_from_api_key store "tr-key" ≡ ok (user_of row (row ∷ []))
unfolding get_user_from_api_key by_argon2
loaded = refl

get_user_from_api_key-IsPowerless_example : IsPowerless 5 (user_of row (row ∷ [])).0
get_user_from_api_key-IsPowerless_example =
    get_user_from_api_key-IsPowerless store "tr-key" (user_of row (row ∷ [])).0 row.api_key 5 tt
      all_read_only loaded

logged_in : auth_with_api_key services headers ≡ (some jo, some scoped)
unfolding auth_with_api_key get_api_key_from_headers strip_bearer
logged_in = refl

auth_with_api_key_sound_example :
    (key : String) × (get_api_key_from_headers headers ≡ some key)
    × (AdminLogin services headers key jo × (some scoped ≡ none)
        ⊎ (k : UserApiKey) × (some scoped ≡ some k) × (services.user_from_api_key key ≡ ok (jo, k)))
auth_with_api_key_sound_example =
    auth_with_api_key_sound services headers jo (some scoped) logged_in

called : call services request ≡ ok found
unfolding call auth_with_api_key get_api_key_from_headers strip_bearer authorize with_dataset
    check_api_key find_org_role load_dataset get_dataset_id_from_headers from_i32
called = refl

call_admin_example :
    (u : SlimUser) × (key : Option UserApiKey) × LoggedIn services request u key
    × MayAdminister services request u key promoted
call_admin_example = call_admin services request found promoted called given
