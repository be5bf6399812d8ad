-- ===== src/Auth/Gate.antt =====
-- server/src/handlers/auth_handler.rs: the arguments by which a handler asks for a user, an admin or
-- an owner, and what the middleware must have found for them to be given.
use Prim.Native.String.{◌++◌ as str_append}
use trieve.Prelude.{
  ◌≡◌, ◌⊎◌, refl, sym, String, Bool, true, Option, none, some, List, [], ◌∷◌, map, ◌==◌, ◌&&◌,
  is_empty, not, arith, Bool-cases, Option-cases, inl, inr,
}
use trieve.Errors.{unauthorized, forbidden, Result, ok, err, ok_or, err-ne-ok, ok-injective}
use trieve.Models.{Uuid}
use trieve.Auth.{
  UserRole, owner, admin, user, from_i32, is_non_negative, UserOrganization, SlimUser, UserApiKey,
  org_of,
}
use trieve.Auth.Middleware.{
  DatasetAndOrg, OrganizationRole, Extensions, Request, Services, admits, contains, as_admin,
  promote, check_api_key, find_org_role,
}

-- `LoggedUser`, `AdminOnly` and `OwnerOnly` as request arguments.
unfoldable pub logged_user : Extensions → Result SlimUser
logged_user ext = ok_or ext.user unauthorized

abbrev pub admin_role : OrganizationRole → UserRole → Result SlimUser
admin_role r owner = ok r.user
admin_role r admin = ok r.user
admin_role r user = err forbidden

unfoldable pub admin_only : Extensions → Result SlimUser
admin_only ext = elim ext.org_role [ none ↦ err unauthorized | some r ↦ admin_role r r.role ]

abbrev pub owner_role : OrganizationRole → UserRole → Result SlimUser
owner_role r owner = ok r.user
owner_role r admin = err forbidden
owner_role r user = err forbidden

unfoldable pub owner_only : Extensions → Result SlimUser
owner_only ext = elim ext.org_role [ none ↦ err unauthorized | some r ↦ owner_role r r.role ]

abbrev pub route : Request → String
route req = str_append req.method (str_append " " req.matched_path)

user_of_ok : (r r' : OrganizationRole) → ok (some r) ≡ ok (some r') → r'.user ≡ r.user
user_of_ok r r' h = cc

role_of_ok : (r r' : OrganizationRole) → ok (some r) ≡ ok (some r') → r'.role ≡ r.role
role_of_ok r r' h = ground arith

and_right : (a b : Bool) → (a && b) ≡ true → b ≡ true
and_right a b h = ground arith

-- The request's route is among the scopes of the key.
abbrev pub InScope : Request → Option UserApiKey → Type 0
InScope req key =
    (k : UserApiKey) × (scopes : List (Option String)) × (key ≡ some k)
    × (k.scopes ≡ some scopes)
    × (contains scopes (route req) ≡ true)

module _ (services : Services) where
  -- A request with an API key gets past the key's restrictions only if its organization and its
  -- dataset are among those that the key names, where it names any, and its route is among the
  -- key's scopes, where the key has scopes.
  pub check_api_key_sound :
      (req : Request) (d : DatasetAndOrg) (k : UserApiKey) (u u' : Option SlimUser)
      → check_api_key services req d (some k) u ≡ ok u'
      → (admits k.organization_ids (services.uuid_to_string d.organization_id) ≡ true)
        × (admits k.dataset_ids (services.uuid_to_string d.dataset_id) ≡ true)
        × ((k.scopes ≡ none) × (u' ≡ u)
            ⊎ InScope req (some k) × (u' ≡ promote services d.organization_id u))
  unfolding check_api_key
  check_api_key_sound req d k u u' h =
      elim (Bool-cases (admits k.organization_ids (services.uuid_to_string d.organization_id))) [
        | inr a ↦ absurd (err-ne-ok (rw (a, check_api_key) at h))
        | inl a ↦ elim (Bool-cases (admits k.dataset_ids (services.uuid_to_string d.dataset_id))) [
          | inr b ↦ absurd (err-ne-ok (rw (a, check_api_key, b) at h))
          | inl b ↦ elim (Option-cases k.scopes) [
            | inl c ↦ (a, b, inl (c, sym (ok-injective (rw (a, check_api_key, b, c) at h))))
            | inr (scopes, c) ↦
                elim (Bool-cases (not (is_empty scopes) && contains scopes (route req))) [
                  | inl t ↦ (
                    a,
                    b,
                    inr (
                      (k, scopes, refl, c, and_right (not (is_empty scopes)) _ t),
                      sym (ok-injective (rw (a, check_api_key, b, c, t) at h)),
                    ),
                  )
                  | inr t ↦ absurd (err-ne-ok (rw (a, check_api_key, b, c, t) at h))
                ]
          ]
        ]
      ]

  pub find_org_role_sound :
      (u : SlimUser) (org : Uuid) (r : OrganizationRole)
      → find_org_role services (some u) org ≡ ok (some r)
      → (o : UserOrganization) × (org_of u.user_orgs org ≡ some o)
        × (r.role ≡ from_i32 o.role)
        × (r.user ≡ u)
  unfolding find_org_role
  find_org_role_sound u org r h = elim (Option-cases (org_of u.user_orgs org)) [
    | inl e ↦ absurd (err-ne-ok (rw (e, find_org_role) at h))
    | inr (o, e) ↦ elim (Bool-cases (is_non_negative o.role)) [
      | inl t ↦ (
        o,
        e,
        role_of_ok _ r (rw (e, find_org_role, t) at h),
        user_of_ok _ r (rw (e, find_org_role, t) at h),
      )
      | inr t ↦ absurd (err-ne-ok (rw (e, find_org_role, t) at h))
    ]
  ]

  as_admin_org :
      (id : Uuid) (o : UserOrganization)
      → (as_admin services id o).organization_id ≡ o.organization_id
  as_admin_org id o = ground arith

  -- A promotion adds no organization.
  pub org_of-promote :
      (id org : Uuid) (orgs : List UserOrganization) (o' : UserOrganization)
      → org_of (map (as_admin services id) orgs) org ≡ some o'
      → (o : UserOrganization) × (org_of orgs org ≡ some o)
  org_of-promote id org [] o' h = cc
  org_of-promote id org (o ∷ orgs) o' h = elim (Bool-cases (o.organization_id == org)) [
    | inl t ↦ (o, rw t refl)
    | inr t ↦
        let (p, e) = org_of-promote id org orgs o' (rw (as_admin_org id o, t) at h) in (p, rw t e)
  ]
