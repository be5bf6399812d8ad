-- ===== src/Auth/Call.antt =====
-- server/src/middleware/auth_middleware.rs: the middleware as a whole, for a handler that asks for an
-- admin.
use trieve.Prelude.{
  ◌≡◌, ◌⊎◌, inl, inr, refl, ap, sym, ◌∙◌, Option, none, some, Option-cases, none-ne-some,
}
use trieve.Errors.{ok, ok-injective}
use trieve.Models.{Uuid}
use trieve.Auth.{UserOrganization, SlimUser, UserApiKey, org_of}
use trieve.Auth.Headers.{get_dataset_id_from_headers, get_org_id_from_headers}
use trieve.Auth.Middleware.{
  DatasetAndOrg, OrganizationRole, Extensions, Request, Services, check_api_key, find_org_role,
  authorize, auth_with_api_key, call,
}
use trieve.Auth.Gate.{admin_only, check_api_key_sound}
use trieve.Auth.Admin.{
  admin_only_sound, with_dataset_steps, with_organization_steps, admin_needs_role_or_scope,
  RequestOrg, Given,
}

no_role : (r : OrganizationRole) → ok none ≡ ok (some r) → ⊥
no_role r h = none-ne-some (ok-injective h)

module _ (services : Services) where
  -- Who is logged in, and the API key that did it: the user of the session, or that of a key.
  abbrev pub LoggedIn : Request → SlimUser → Option UserApiKey → Type 0
  LoggedIn req u key =
      ((services.session_user ≡ some u) × (key ≡ none))
      ⊎ (services.session_user ≡ none) × (auth_with_api_key services req.headers ≡ (some u, key))

  check_api_key-none :
      (req : Request) (d : DatasetAndOrg) (key : Option UserApiKey) (checked : Option SlimUser)
      → check_api_key services req d key none ≡ ok checked
      → checked ≡ none
  unfolding check_api_key
  check_api_key-none req d none checked h = sym (ok-injective h)
  check_api_key-none req d (some k) checked h =
      elim (check_api_key_sound services req d k none checked h).2 [
        | inl (n, e) ↦ e
        | inr (s, e) ↦ e
      ]

  no_role_for_nobody :
      (checked : Option SlimUser) (org : Uuid) (r : OrganizationRole)
      → checked ≡ none
      → find_org_role services checked org ≡ ok (some r)
      → ⊥
  unfolding find_org_role
  no_role_for_nobody checked org r e h =
      no_role r (ap (λ (u : Option SlimUser). find_org_role services u org) (sym e) ∙ h)

  nobody_is_admin :
      (req : Request) (key : Option UserApiKey) (ext : Extensions) (v : SlimUser)
      → authorize services req none key ≡ ok ext
      → admin_only ext ≡ ok v
      → ⊥
  unfolding authorize
  nobody_is_admin req key ext v h g =
      let (r, e, enough, w) = admin_only_sound ext v g in
      elim (Option-cases (get_dataset_id_from_headers req.headers)) [
        | inr (id, i) ↦
            let (d, l, checked, c, f) =
              with_dataset_steps services req none key id ext (rw (i, authorize) at h) in
            no_role_for_nobody checked d.organization_id r (check_api_key-none req d key checked c)
              (f ∙ ap ok e)
        | inl i ↦ elim (Option-cases (get_org_id_from_headers req.headers)) [
          | inr (header, j) ↦
              let (org, l, f) =
                with_organization_steps services none header ext (rw (i, authorize, j) at h) in
              no_role_for_nobody none org r refl (f ∙ ap ok e)
          | inl j ↦
              none-ne-some
                (ap (λ (x : Extensions). x.org_role) (ok-injective (rw (i, authorize, j) at h)) ∙ e)
        ]
      ]

  -- What lets a user act as an admin, and as whom: by the organization of the request.
  abbrev pub MayAdminister : Request → SlimUser → Option UserApiKey → SlimUser → Type 0
  MayAdminister req u key v =
      (org : Uuid) × (o : UserOrganization) × RequestOrg services req org
      × (org_of u.user_orgs org ≡ some o)
      × Given services req key org u o v

  authorized_user :
      (req : Request) (who : Option SlimUser) (key : Option UserApiKey) (ext : Extensions)
      (v : SlimUser)
      → authorize services req who key ≡ ok ext
      → admin_only ext ≡ ok v
      → (u : SlimUser) × (who ≡ some u) × MayAdminister req u key v
  authorized_user req none key ext v h g = absurd (nobody_is_admin req key ext v h g)
  authorized_user req (some u) key ext v h g =
      (u, refl, admin_needs_role_or_scope services req u v key ext h g)

  -- A handler that asks for an admin runs only for a user who is logged in, by the session or, without
  -- one, by an API key, and who has a membership in the organization of the request: that of its data
  -- set, or the one that its header names. The membership is an admin's or an owner's, and the handler
  -- is given this user; or the user came with a key whose scopes name the route of the request, and
  -- the handler is given the same user with that membership made an admin's.
  pub call_admin :
      (req : Request) (ext : Extensions) (v : SlimUser)
      → call services req ≡ ok ext
      → admin_only ext ≡ ok v
      → (u : SlimUser) × (key : Option UserApiKey) × LoggedIn req u key × MayAdminister req u key v
  unfolding call
  call_admin req ext v h g = elim (Option-cases services.session_user) [
    | inr (u, s) ↦ (
      u,
      none,
      inl (s, refl),
      admin_needs_role_or_scope services req u v none ext (rw (call, s) at h) g,
    )
    | inl s ↦
        let (who, key) = auth_with_api_key services req.headers in
        let (u, e, may) = authorized_user req who key ext v (rw (call, s) at h) g in
        (u, key, inr (s, ap (λ (x : Option SlimUser). (x, key)) e), may)
  ]
