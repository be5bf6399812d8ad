-- ===== src/Auth.antt =====
-- Who may do what: the roles of server/src/data/models.rs, the API keys of
-- server/src/operators/user_operator.rs and the middleware of
-- server/src/middleware/auth_middleware.rs. This file has the data and the role checks.
pub mod Headers
pub mod ApiKey
pub mod Middleware
pub mod Checks
pub mod Gate
pub mod Admin
pub mod Login
pub mod Call
pub mod ReadOnly
pub mod Examples
use trieve.Prelude.{
  ℕ, String, Bool, true, false, Option, none, some, List, ◌==◌, leb, find, if◌then◌else◌, ℤ, pos,
  negsuc,
}
use trieve.Models.{Uuid}

pub data UserRole : Type 0 where
  owner admin user : UserRole

-- `From<i32>`
unfoldable pub from_i32 : ℤ → UserRole
from_i32 (pos n) = if n == 2 then owner else if n == 1 then admin else user
from_i32 (negsuc n) = user

abbrev pub to_i32 : UserRole → ℤ
to_i32 owner = pos 2
to_i32 admin = pos 1
to_i32 user = pos 0

-- The derived order goes by the discriminants.
abbrev pub discriminant : UserRole → ℕ
discriminant owner = 2
discriminant admin = 1
discriminant user = 0

abbrev pub at_least : UserRole → UserRole → Bool
at_least wanted role = leb (discriminant wanted) (discriminant role)

-- `role >= UserRole::User.into()` on `i32`.
abbrev pub is_non_negative : ℤ → Bool
is_non_negative (pos n) = true
is_non_negative (negsuc n) = false

pub record UserOrganization : Type 0 where
  pub id : Uuid
  pub user_id : Uuid
  pub organization_id : Uuid
  pub role : ℤ

-- `SlimUser`, which is `LoggedUser`: `profile` is the text of the fields that are only passed on.
pub record SlimUser : Type 0 where
  pub id : Uuid
  pub profile : String
  pub user_orgs : List UserOrganization

pub record UserApiKey : Type 0 where
  pub role : ℤ
  pub dataset_ids : Option (List (Option String))
  pub organization_ids : Option (List (Option String))
  pub scopes : Option (List (Option String))

-- `user_orgs.iter().find(|org| org.organization_id == org_id)`
abbrev pub org_of : List UserOrganization → Uuid → Option UserOrganization
org_of orgs org_id = find (λ o. o.organization_id == org_id) orgs

unfoldable pub get_role_for_org : SlimUser → Uuid → Option UserRole
get_role_for_org u org_id = elim (org_of u.user_orgs org_id) [
  | none ↦ none
  | some o ↦ some (from_i32 o.role)
]

abbrev pub holds : UserRole → Option UserRole → Bool
holds wanted none = false
holds wanted (some role) = at_least wanted role

unfoldable pub verify_owner : SlimUser → Uuid → Bool
verify_owner u org_id = holds owner (get_role_for_org u org_id)

unfoldable pub verify_admin : SlimUser → Uuid → Bool
verify_admin u org_id = holds admin (get_role_for_org u org_id)

unfoldable pub verify_member : SlimUser → Uuid → Bool
verify_member u org_id = holds user (get_role_for_org u org_id)
