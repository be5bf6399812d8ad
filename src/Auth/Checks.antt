-- ===== src/Auth/Checks.antt =====
-- The role checks of server/src/middleware/auth_middleware.rs, on the users that
-- server/src/operators/user_operator.rs loads for an API key.
use trieve.Prelude.{
  ◌≡◌, ◌⊎◌, refl, ap, ◌∙◌, sym, true, false, Option, none, some, List, [], ◌∷◌, map, ◌==◌, ℤ, pos,
  Bool-cases, Option-cases, inl, inr, eq→==,
}
use trieve.Models.{Uuid}
use trieve.Auth.{
  UserRole, owner, admin, user, from_i32, to_i32, at_least, UserOrganization, SlimUser, org_of,
  get_role_for_org, holds, verify_owner, verify_admin, verify_member,
}
use trieve.Auth.ApiKey.{Row, is_zero, key_role, cap_role, user_of}

-- The stored number of a role is read back as the role.
pub from_i32-to_i32 : (role : UserRole) → from_i32 (to_i32 role) ≡ role
unfolding from_i32
from_i32-to_i32 owner = refl
from_i32-to_i32 admin = refl
from_i32-to_i32 user = refl

owner-holds : (role : Option UserRole) → holds owner role ≡ true → holds admin role ≡ true
owner-holds none h = h
owner-holds (some owner) h = refl
owner-holds (some admin) h = refl
owner-holds (some user) h = cc

admin-holds : (role : Option UserRole) → holds admin role ≡ true → holds user role ≡ true
admin-holds none h = h
admin-holds (some owner) h = refl
admin-holds (some admin) h = refl
admin-holds (some user) h = cc

-- Who passes the check for owners passes the one for admins, and who passes that one passes the one
-- for members.
checks_nested :
    (u : SlimUser) (org : Uuid)
    → (verify_owner u org ≡ true → verify_admin u org ≡ true)
      × (verify_admin u org ≡ true → verify_member u org ≡ true)
unfolding verify_owner verify_admin verify_member
checks_nested u org = (owner-holds (get_role_for_org u org), admin-holds (get_role_for_org u org))

member-holds : (role : UserRole) → at_least user role ≡ true
member-holds owner = refl
member-holds admin = refl
member-holds user = refl

-- The check for members passes for the users that have a membership in the organization, whatever
-- role the membership has, and for no others.
verify_member_lem :
    (u : SlimUser) (org : Uuid)
    → ((o : UserOrganization) × (org_of u.user_orgs org ≡ some o) × (verify_member u org ≡ true))
      ⊎ (org_of u.user_orgs org ≡ none) × (verify_member u org ≡ false)
unfolding verify_member get_role_for_org
verify_member_lem u org = elim (Option-cases (org_of u.user_orgs org)) [
  | inl e ↦ inr (e, rw (verify_member, get_role_for_org, e) refl)
  | inr (o, e) ↦
      inl (o, e, rw (verify_member, get_role_for_org, e) (member-holds (from_i32 o.role)))
]

-- Every row that is looked at carries a read-only key.
abbrev pub AllReadOnly : List Row → Type 0
AllReadOnly [] = Unit {0}
AllReadOnly (r ∷ rows) = (is_zero r.api_key.role ≡ true) × AllReadOnly rows

-- The key that belongs to a membership is read-only.
abbrev Covers : List Row → UserOrganization → Type 0
Covers rows o = (role : ℤ) × (key_role rows o ≡ some role) × (is_zero role ≡ true)

abbrev AllCovered : List Row → List Row → Type 0
AllCovered rows [] = Unit {0}
AllCovered rows (r ∷ rs) = Covers rows r.user_org × AllCovered rows rs

Covers-cons :
    (r : Row) (rows : List Row) (o : UserOrganization)
    → is_zero r.api_key.role ≡ true
    → Covers rows o
    → Covers (r ∷ rows) o
Covers-cons r rows o z (role, e, c) = elim (Bool-cases (r.user_org.id == o.id)) [
  | inl t ↦ (r.api_key.role, rw (t, key_role) refl, z)
  | inr t ↦ (role, rw (t, key_role) e, c)
]

Covers-head :
    (r : Row) (rows : List Row) → is_zero r.api_key.role ≡ true → Covers (r ∷ rows) r.user_org
Covers-head r rows z =
    (r.api_key.role, rw (eq→== r.user_org.id r.user_org.id refl, key_role) refl, z)

AllCovered-cons :
    (r : Row) (rows rs : List Row)
    → is_zero r.api_key.role ≡ true
    → AllCovered rows rs
    → AllCovered (r ∷ rows) rs
AllCovered-cons r rows [] z h = tt
AllCovered-cons r rows (x ∷ rs) z (c, h) =
    (Covers-cons r rows x.user_org z c, AllCovered-cons r rows rs z h)

AllReadOnly-AllCovered : (rows : List Row) → AllReadOnly rows → AllCovered rows rows
AllReadOnly-AllCovered [] h = tt
AllReadOnly-AllCovered (r ∷ rows) (z, h) =
    (Covers-head r rows z, AllCovered-cons r rows rows z (AllReadOnly-AllCovered rows h))

cap_role_zero :
    (rows : List Row) (o : UserOrganization) → Covers rows o → (cap_role rows o).role ≡ pos 0
cap_role_zero rows o (role, e, z) = rw (e, z, cap_role) refl

org_of-zero :
    (rows rs : List Row) (org : Uuid) (o : UserOrganization)
    → AllCovered rows rs
    → org_of (map (λ (r : Row). cap_role rows r.user_org) rs) org ≡ some o
    → o.role ≡ pos 0
org_of-zero rows [] org o c h = cc
org_of-zero rows (r ∷ rs) org o (c, cs) h =
    elim (Bool-cases ((cap_role rows r.user_org).organization_id == org)) [
      | inl t ↦
          ap (λ (x : Option UserOrganization). elim x [ none ↦ pos 0 | some y ↦ y.role ])
            (sym (rw t at h))
          ∙ cap_role_zero rows r.user_org c
      | inr t ↦ org_of-zero rows rs org o cs (rw t at h)
    ]

-- The user that is loaded for a read-only key passes no check for admins or owners, in whatever
-- organization, whatever roles the user has.
pub read_only_key :
    (first : Row) (rest : List Row) (org : Uuid)
    → AllReadOnly (first ∷ rest)
    → (verify_admin (user_of first (first ∷ rest)).0 org ≡ false)
      × (verify_owner (user_of first (first ∷ rest)).0 org ≡ false)
unfolding verify_admin verify_owner get_role_for_org from_i32
read_only_key first rest org h =
    let u = (user_of first (first ∷ rest)).0 in
    elim (Option-cases (org_of u.user_orgs org)) [
      | inl e ↦
          (rw (verify_admin, get_role_for_org, e) refl, rw (verify_owner, get_role_for_org, e) refl)
      | inr (o, e) ↦
          let z =
            org_of-zero (first ∷ rest) (first ∷ rest) org o
              (AllReadOnly-AllCovered (first ∷ rest) h) e in
          let r : get_role_for_org u org ≡ some user = (rw (get_role_for_org, e, z) refl) in
          (ap (holds admin) r, ap (holds owner) r)
    ]
