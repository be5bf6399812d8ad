-- ===== src/Auth/Admin.antt =====
-- server/src/handlers/auth_handler.rs: what the middleware has found when a handler is given an admin.
use trieve.Prelude.{
  ◌≡◌, ◌⊎◌, refl, ap, ◌∙◌, sym, String, true, Option, none, some, Option-cases, inl, inr,
  none-ne-some,
}
use trieve.Errors.{ok, Result-cases, err-ne-ok, ok-injective}
use trieve.Models.{Uuid}
use trieve.Auth.{
  UserRole, owner, admin, user, from_i32, at_least, UserOrganization, SlimUser, UserApiKey, org_of,
}
use trieve.Auth.Headers.{get_dataset_id_from_headers, get_org_id_from_headers}
use trieve.Auth.Middleware.{
  DatasetAndOrg, OrganizationRole, Extensions, Request, Services, check_api_key, find_org_role,
  with_dataset, with_organization, authorize, load_dataset, parse_org, promote,
}
use trieve.Auth.Gate.{
  admin_role, admin_only, InScope, check_api_key_sound, find_org_role_sound, org_of-promote,
}

admin_role_sound :
    (r : OrganizationRole) (role : UserRole) (v : SlimUser)
    → admin_role r role ≡ ok v
    → (at_least admin role ≡ true) × (r.user ≡ v)
admin_role_sound r owner v h = (refl, ok-injective h)
admin_role_sound r admin v h = (refl, ok-injective h)
admin_role_sound r user v h = cc

pub admin_only_sound :
    (ext : Extensions) (v : SlimUser)
    → admin_only ext ≡ ok v
    → (r : OrganizationRole) × (ext.org_role ≡ some r)
      × (at_least admin r.role ≡ true)
      × (r.user ≡ v)
unfolding admin_only
admin_only_sound ext v h = elim (Option-cases ext.org_role) [
  | inl e ↦ absurd (err-ne-ok (rw (e, admin_only) at h))
  | inr (r, e) ↦
      let (enough, w) = admin_role_sound r r.role v (rw (e, admin_only) at h) in (r, e, enough, w)
]

module _ (services : Services) where
  pub with_dataset_steps :
      (req : Request) (u : Option SlimUser) (key : Option UserApiKey) (id : String)
      (ext : Extensions)
      → with_dataset services req u key id ≡ ok ext
      → (d : DatasetAndOrg) × (load_dataset services req.headers id ≡ ok d)
        × (checked : Option SlimUser) × (check_api_key services req d key u ≡ ok checked)
        × (find_org_role services checked d.organization_id ≡ ok ext.org_role)
  unfolding with_dataset
  with_dataset_steps req u key id ext h =
      elim (Result-cases (load_dataset services req.headers id)) [
        | inr (x, a) ↦ absurd (err-ne-ok (rw (a, with_dataset) at h))
        | inl (d, a) ↦ elim (Result-cases (check_api_key services req d key u)) [
          | inr (x, c) ↦ absurd (err-ne-ok (rw (a, with_dataset, c) at h))
          | inl (checked, c) ↦
              elim (Result-cases (find_org_role services checked d.organization_id)) [
                | inr (x, f) ↦ absurd (err-ne-ok (rw (a, with_dataset, c, f) at h))
                | inl (role, f) ↦ (
                  d,
                  a,
                  checked,
                  c,
                  f
                      ∙ ap ok (
                          ap (λ (x : Extensions). x.org_role)
                            (ok-injective (rw (a, with_dataset, c, f) at h))),
                )
              ]
        ]
      ]

  pub with_organization_steps :
      (u : Option SlimUser) (header : String) (ext : Extensions)
      → with_organization services u header ≡ ok ext
      → (org : Uuid) × (parse_org services header ≡ ok org)
        × (find_org_role services u org ≡ ok ext.org_role)
  unfolding with_organization
  with_organization_steps u header ext h = elim (Result-cases (parse_org services header)) [
    | inr (x, a) ↦ absurd (err-ne-ok (rw (a, with_organization) at h))
    | inl (org, a) ↦ elim (Result-cases (find_org_role services u org)) [
      | inr (x, f) ↦ absurd (err-ne-ok (rw (a, with_organization, f) at h))
      | inl (role, f) ↦ (
        org,
        a,
        f
            ∙ ap ok (
                ap (λ (x : Extensions). x.org_role)
                  (ok-injective (rw (a, with_organization, f) at h))),
      )
    ]
  ]

  -- The organization of a request: that of its data set, or the one that its header names.
  abbrev pub RequestOrg : Request → Uuid → Type 0
  RequestOrg req org =
      ((id : String) × (d : DatasetAndOrg) × (get_dataset_id_from_headers req.headers ≡ some id)
        × (load_dataset services req.headers id ≡ ok d)
        × (d.organization_id ≡ org))
      ⊎ ((header : String) × (get_dataset_id_from_headers req.headers ≡ none)
          × (get_org_id_from_headers req.headers ≡ some header)
          × (parse_org services header ≡ ok org))

  -- The user who is given to the handler: the one who logged in, as an admin or an owner of the
  -- organization; or the same user made an admin of it by a key with the route among its scopes.
  abbrev pub Given :
      Request → Option UserApiKey → Uuid → SlimUser → UserOrganization → SlimUser → Type 0
  Given req key org u o v =
      (v ≡ u) × (at_least admin (from_i32 o.role) ≡ true)
      ⊎ InScope req key × (promote services org (some u) ≡ some v)

  -- The role that was found is that of the user, or the user was promoted.
  abbrev RoleOf :
      Request → Option UserApiKey → Uuid → SlimUser → UserOrganization → OrganizationRole → Type 0
  RoleOf req key org u o r =
      (r.user ≡ u) × (r.role ≡ from_i32 o.role)
      ⊎ InScope req key × (promote services org (some u) ≡ some r.user)

  Given-RoleOf :
      (req : Request) (key : Option UserApiKey) (org : Uuid) (u v : SlimUser) (o : UserOrganization)
      (r : OrganizationRole)
      → at_least admin r.role ≡ true
      → r.user ≡ v
      → RoleOf req key org u o r
      → Given req key org u o v
  Given-RoleOf req key org u v o r h w (inl (p, q)) =
      inl (sym w ∙ p, ap (at_least admin) (sym q) ∙ h)
  Given-RoleOf req key org u v o r h w (inr (s, p)) = inr (s, p ∙ ap (λ (x : SlimUser). some x) w)

  role_sound :
      (req : Request) (u : SlimUser) (key : Option UserApiKey) (d : DatasetAndOrg)
      (checked : Option SlimUser) (r : OrganizationRole)
      → check_api_key services req d key (some u) ≡ ok checked
      → find_org_role services checked d.organization_id ≡ ok (some r)
      → (o : UserOrganization) × (org_of u.user_orgs d.organization_id ≡ some o)
        × RoleOf req key d.organization_id u o r
  unfolding check_api_key
  role_sound req u none d checked r c f =
      let e : checked ≡ some u = sym (ok-injective c) in
      let (o, p, q, w) = find_org_role_sound services u d.organization_id r (rw e at f) in
      (o, p, inl (w, q))
  role_sound req u (some k) d checked r c f =
      elim (check_api_key_sound services req d k (some u) checked c).2 [
        | inl (n, e) ↦
            let (o, p, q, w) = find_org_role_sound services u d.organization_id r (rw e at f) in
            (o, p, inl (w, q))
        | inr (scoped, e) ↦
            let (o', p', q', w) = find_org_role_sound services _ d.organization_id r (rw e at f) in
            let (o, p) =
              org_of-promote services d.organization_id d.organization_id u.user_orgs o' p' in
            (o, p, inr (scoped, ap (λ (x : SlimUser). some x) (sym w)))
      ]

  -- When a handler is given an admin, the user that logged in belongs to the organization of the
  -- request, and is an admin or an owner there and is given to the handler; or logged in by an API key
  -- that has the request's route in its scopes, and is given as an admin of that organization.
  pub admin_needs_role_or_scope :
      (req : Request) (u v : SlimUser) (key : Option UserApiKey) (ext : Extensions)
      → authorize services req (some u) key ≡ ok ext
      → admin_only ext ≡ ok v
      → (org : Uuid) × (o : UserOrganization) × RequestOrg req org
        × (org_of u.user_orgs org ≡ some o)
        × Given req key org u o v
  unfolding authorize
  admin_needs_role_or_scope req u v key ext h g =
      let (r, e, enough, w) = admin_only_sound ext v g in
      elim (Option-cases (get_dataset_id_from_headers req.headers)) [
        | inr (id, i) ↦
            let (d, l, checked, c, f) =
              with_dataset_steps req (some u) key id ext (rw (i, authorize) at h) in
            let (o, p, q) = role_sound req u key d checked r c (f ∙ ap ok e) in
            (
              d.organization_id,
              o,
              inl (id, d, i, l, refl),
              p,
              Given-RoleOf req key d.organization_id u v o r enough w q,
            )
        | inl i ↦ elim (Option-cases (get_org_id_from_headers req.headers)) [
          | inr (header, j) ↦
              let (org, l, f) =
                with_organization_steps (some u) header ext (rw (i, authorize, j) at h) in
              let (o, p, q, x) = find_org_role_sound services u org r (f ∙ ap ok e) in
              (
                org,
                o,
                inr (header, i, j, l),
                p,
                Given-RoleOf req key org u v o r enough w (inl (x, q)),
              )
          | inl j ↦ absurd (
              none-ne-some (
                ap (λ (x : Extensions). x.org_role) (ok-injective (rw (i, authorize, j) at h)) ∙ e))
        ]
      ]
