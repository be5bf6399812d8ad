-- ===== src/Auth/Middleware.antt =====
-- server/src/middleware/auth_middleware.rs: what the middleware adds to a request before its handler
-- runs, or the error that it answers with.
use Prim.Native.String.{◌++◌ as str_append}
use trieve.Prelude.{
  String, str_eq, Bool, true, false, Option, none, some, List, map, ◌==◌, ◌&&◌, ◌||◌, not, any,
  is_empty, unwrap_or, if◌then◌else◌,
}
use trieve.Errors.{bad_request, unauthorized, forbidden, Result, ok, err, ◌>>=◌, ok_or}
use trieve.Models.{Uuid, UnifiedId, trieve_uuid, tracking_id}
use trieve.Auth.{
  UserRole, admin, from_i32, to_i32, is_non_negative, UserOrganization, SlimUser, UserApiKey,
  org_of,
}
use trieve.Auth.Headers.{
  HeaderMap, get_api_key_from_headers, get_dataset_id_from_headers, get_org_id_from_headers,
}

-- `DatasetAndOrgWithSubAndPlan`, as far as the middleware reads it.
pub record DatasetAndOrg : Type 0 where
  pub dataset_id : Uuid
  pub organization_id : Uuid

pub record OrganizationRole : Type 0 where
  pub user : SlimUser
  pub role : UserRole

-- What the middleware has put into the request when the handler is called.
pub record Extensions : Type 0 where
  pub user : Option SlimUser
  pub dataset : Option DatasetAndOrg
  pub org_role : Option OrganizationRole

pub record Request : Type 0 where
  pub method : String
  pub matched_path : String
  pub headers : HeaderMap

-- The session, the database, the environment and the `uuid` crate.
pub record Services : Type 0 where
  -- `get_user`: the user of the session's identity
  pub session_user : Option SlimUser
  -- `std::env::var("ADMIN_API_KEY")`
  pub admin_api_key : Option String
  pub parse_uuid : String → Option Uuid
  pub uuid_to_string : Uuid → String
  pub owner_of_org : Uuid → Result SlimUser
  pub owner_of_dataset : Uuid → Result SlimUser
  pub user_from_api_key : String → Result (SlimUser × UserApiKey)
  pub get_dataset_and_organization : UnifiedId → Option Uuid → Result DatasetAndOrg

abbrev pub ok_value {ℓ} : {A : Type ℓ} → Result A → Option A
ok_value (ok a) = some a
ok_value (err e) = none

abbrev pub or_else {ℓ} : {A : Type ℓ} → Option A → Option A → Option A
or_else none b = b
or_else (some a) b = some a

-- `api_key_org_ids.contains(&Some(id))`, on texts
abbrev pub same_text : String → Option String → Bool
same_text id none = false
same_text id (some x) = str_eq x id

abbrev pub contains : List (Option String) → String → Bool
contains ids id = any (same_text id) ids

-- A restriction of an API key: none, an empty list and a list with the id pass.
abbrev pub admits : Option (List (Option String)) → String → Bool
admits none id = true
admits (some ids) id = is_empty ids || contains ids id

module _ (services : Services) where
  -- A parsed id, and the user that a lookup gives for it.
  abbrev pub lookup_owner : Option String → (Uuid → Result SlimUser) → Option SlimUser
  lookup_owner none lookup = none
  lookup_owner (some header) lookup = elim (services.parse_uuid header) [
    | none ↦ none
    | some id ↦ ok_value (lookup id)
  ]

  -- Whom the administrators' key stands for.
  abbrev pub admin_owner : HeaderMap → String → Option SlimUser
  admin_owner headers key =
      if str_eq key (unwrap_or services.admin_api_key "")
      then or_else (lookup_owner (get_org_id_from_headers headers) services.owner_of_org)
          (lookup_owner (get_dataset_id_from_headers headers) services.owner_of_dataset)
      else none

  -- An owner goes before the users of API keys.
  abbrev pub log_in :
      Option SlimUser → Result (SlimUser × UserApiKey) → Option SlimUser × Option UserApiKey
  log_in (some u) found = (some u, none)
  log_in none (ok (u, api_key)) = (some u, some api_key)
  log_in none (err e) = (none, none)

  unfoldable pub auth_with_api_key : HeaderMap → Option SlimUser × Option UserApiKey
  auth_with_api_key headers = elim (get_api_key_from_headers headers) [
    | none ↦ (none, none)
    | some key ↦ log_in (admin_owner headers key) (services.user_from_api_key key)
  ]

  unfoldable pub parse_org : String → Result Uuid
  parse_org header =
      ok_or (services.parse_uuid header) (bad_request "Could not convert Organization to UUID")

  unfoldable pub load_dataset : HeaderMap → String → Result DatasetAndOrg
  load_dataset headers dataset_id = elim (services.parse_uuid dataset_id) [
    | some id ↦ services.get_dataset_and_organization (trieve_uuid id) none
    | none ↦ elim (get_org_id_from_headers headers) [
      | some header ↦ (do
        org_id ← parse_org header
        services.get_dataset_and_organization (tracking_id dataset_id) (some org_id))
      | none ↦
          err
            (bad_request "Using Dataset Tracking IDs requires providing the TR-Organization header")
    ]
  ]

  -- A key with the request's route among its scopes makes its user an admin of the organization.
  abbrev pub as_admin : Uuid → UserOrganization → UserOrganization
  as_admin org_id o = if o.organization_id == org_id then record o { role = to_i32 admin } else o

  abbrev pub promote : Uuid → Option SlimUser → Option SlimUser
  promote org_id none = none
  promote org_id (some u) = some (record u { user_orgs = map (as_admin org_id) u.user_orgs })

  -- The restrictions of an API key, for a request with a dataset: the user that goes on.
  unfoldable pub check_api_key :
      Request → DatasetAndOrg → Option UserApiKey → Option SlimUser → Result (Option SlimUser)
  check_api_key req d none u = ok u
  check_api_key req d (some key) u =
      if not (admits key.organization_ids (services.uuid_to_string d.organization_id))
      then err unauthorized
      else if not (admits key.dataset_ids (services.uuid_to_string d.dataset_id))
      then err unauthorized
      else elim key.scopes [
        | none ↦ ok u
        | some scopes ↦
            if not (is_empty scopes)
              && contains scopes (str_append req.method (str_append " " req.matched_path))
            then ok (promote d.organization_id u)
            else err unauthorized
      ]

  -- The role that the handlers will see.
  unfoldable pub find_org_role : Option SlimUser → Uuid → Result (Option OrganizationRole)
  find_org_role none org_id = ok none
  find_org_role (some u) org_id = do
    user_org ← ok_or (org_of u.user_orgs org_id) forbidden
    if is_non_negative user_org.role
        then ok (some (record { user = u; role = from_i32 user_org.role }))
        else err forbidden

  -- A request for a dataset, with the user that is logged in and the API key that logged it in.
  unfoldable pub with_dataset :
      Request → Option SlimUser → Option UserApiKey → String → Result Extensions
  with_dataset req u api_key dataset_id = do
    d ← load_dataset req.headers dataset_id
    checked ← check_api_key req d api_key u
    role ← find_org_role checked d.organization_id
    ok (record { user = u; dataset = some d; org_role = role })

  -- A request for an organization only.
  unfoldable pub with_organization : Option SlimUser → String → Result Extensions
  with_organization u header = do
    org_id ← parse_org header
    role ← find_org_role u org_id
    ok (record { user = u; dataset = none; org_role = role })

  unfoldable pub authorize : Request → Option SlimUser → Option UserApiKey → Result Extensions
  authorize req u api_key = elim (get_dataset_id_from_headers req.headers) [
    | some dataset_id ↦ with_dataset req u api_key dataset_id
    | none ↦ elim (get_org_id_from_headers req.headers) [
      | some header ↦ with_organization u header
      | none ↦ ok (record { user = u; dataset = none; org_role = none })
    ]
  ]

  -- `AuthenticationMiddleware::call`, up to the call of the handler.
  unfoldable pub call : Request → Result Extensions
  call req = elim services.session_user [
    | some u ↦ authorize req (some u) none
    | none ↦ let (u, api_key) = auth_with_api_key req.headers in authorize req u api_key
  ]
