-- ===== src/Auth/Login.antt =====
-- server/src/middleware/auth_middleware.rs: whom the key in a request's headers logs in.
use trieve.Prelude.{
  ◌≡◌, ◌⊎◌, refl, ap, ◌∙◌, sym, String, str_eq, eq_iff, true, Option, none, some, unwrap_or,
  Bool-cases, Option-cases, inl, inr, arith, none-ne-some, some-injective,
}
use trieve.Errors.{Result, ok, Result-cases}
use trieve.Models.{Uuid}
use trieve.Auth.{SlimUser, UserApiKey}
use trieve.Auth.Headers.{
  HeaderMap, get_api_key_from_headers, get_dataset_id_from_headers, get_org_id_from_headers,
  strip_bearer,
}
use trieve.Auth.Middleware.{Services, lookup_owner, admin_owner, log_in, or_else, auth_with_api_key}

module _ (services : Services) where
  -- The owner that the lookup finds for the id in a header.
  abbrev pub OwnerFrom : Option String → (Uuid → Result SlimUser) → SlimUser → Type 0
  OwnerFrom header lookup u =
      (text : String) × (id : Uuid) × (header ≡ some text)
      × (services.parse_uuid text ≡ some id)
      × (lookup id ≡ ok u)

  lookup_owner_sound :
      (header : Option String) (lookup : Uuid → Result SlimUser) (u : SlimUser)
      → lookup_owner services header lookup ≡ some u
      → OwnerFrom header lookup u
  lookup_owner_sound none lookup u h = cc
  lookup_owner_sound (some text) lookup u h = elim (Option-cases (services.parse_uuid text)) [
    | inl p ↦ absurd (ground (arith))
    | inr (id, p) ↦ elim (Result-cases (lookup id)) [
      | inl (v, l) ↦ (text, id, refl, p, ground arith)
      | inr (x, l) ↦ absurd (ground arith)
    ]
  ]

  or_else_sound :
      (a b : Option SlimUser) (u : SlimUser) → or_else a b ≡ some u → (a ≡ some u) ⊎ (b ≡ some u)
  or_else_sound none b u h = inr h
  or_else_sound (some v) b u h = inl h

  -- The key is ADMIN_API_KEY, or it is empty and that variable is not set.
  abbrev pub IsAdminKey : String → Type 0
  IsAdminKey key =
      (services.admin_api_key ≡ some key) ⊎ (services.admin_api_key ≡ none) × (key ≡ "")

  IsAdminKey-sound :
      (key : String) → str_eq key (unwrap_or services.admin_api_key "") ≡ true → IsAdminKey key
  IsAdminKey-sound key h = elim (Option-cases services.admin_api_key) [
    | inl e ↦ inr (e, (eq_iff key "").0 (rw (e) at h))
    | inr (a, e) ↦ inl (e ∙ ap (λ (s : String). some s) (sym ((eq_iff key a).0 (rw (e) at h))))
  ]

  -- The user whom the administrators' key logs in: the owner of the organization or the dataset that
  -- the headers name.
  abbrev pub AdminLogin : HeaderMap → String → SlimUser → Type 0
  AdminLogin headers key u =
      IsAdminKey key
      × (OwnerFrom (get_org_id_from_headers headers) services.owner_of_org u
          ⊎ OwnerFrom (get_dataset_id_from_headers headers) services.owner_of_dataset u)

  owner_sound :
      (headers : HeaderMap) (u : SlimUser)
      → or_else
          (lookup_owner services (get_org_id_from_headers headers) services.owner_of_org)
          (lookup_owner services (get_dataset_id_from_headers headers) services.owner_of_dataset)
        ≡ some u
      → OwnerFrom (get_org_id_from_headers headers) services.owner_of_org u
        ⊎ OwnerFrom (get_dataset_id_from_headers headers) services.owner_of_dataset u
  owner_sound headers u h = elim (or_else_sound _ _ u h) [
    | inl a ↦ inl (lookup_owner_sound (get_org_id_from_headers headers) services.owner_of_org u a)
    | inr b ↦
        inr (lookup_owner_sound (get_dataset_id_from_headers headers) services.owner_of_dataset u b)
  ]

  nobody :
      (u : SlimUser) (k : Option UserApiKey)
      → ◌≡◌ {A = Option SlimUser × Option UserApiKey} (none, none) (some u, k)
      → ⊥
  nobody u k h = none-ne-some (ap (λ (x : Option SlimUser × Option UserApiKey). x.0) h)

  admin_owner_sound :
      (headers : HeaderMap) (key : String) (u : SlimUser)
      → admin_owner services headers key ≡ some u
      → AdminLogin headers key u
  admin_owner_sound headers key u h =
      elim (Bool-cases (str_eq key (unwrap_or services.admin_api_key ""))) [
        | inl t ↦ (IsAdminKey-sound key t, owner_sound headers u (rw t at h))
        | inr t ↦ absurd (ground arith)
      ]

  log_in_sound :
      (headers : HeaderMap) (key : String) (u : SlimUser) (k : Option UserApiKey)
      → log_in services (admin_owner services headers key) (services.user_from_api_key key)
        ≡ (some u, k)
      → AdminLogin headers key u × (k ≡ none)
        ⊎ (k' : UserApiKey) × (k ≡ some k') × (services.user_from_api_key key ≡ ok (u, k'))
  log_in_sound headers key u k h = elim (Option-cases (admin_owner services headers key)) [
    | inr (v, e) ↦
        let p = rw (e, log_in) at h in
        inl (
          admin_owner_sound headers key u
              (e ∙ ap (λ (x : Option SlimUser × Option UserApiKey). x.0) p),
          sym (ap (λ (x : Option SlimUser × Option UserApiKey). x.1) p),
        )
    | inl e ↦ elim (Result-cases (services.user_from_api_key key)) [
      | inr (x, f) ↦ absurd (nobody u k (rw (e, log_in, f) at h))
      | inl ((v, k'), f) ↦
          let p = rw (e, log_in, f) at h in
          inr (
            k',
            sym (ap (λ (x : Option SlimUser × Option UserApiKey). x.1) p),
            f
                ∙ ap (λ (w : SlimUser). ok (w, k'))
                    (some-injective (ap (λ (x : Option SlimUser × Option UserApiKey). x.0) p)),
          )
    ]
  ]

  -- A user is logged in by a key only if the key is ADMIN_API_KEY, or is empty where that variable is
  -- not set, and the headers name an
  -- organization or a dataset that the user owns, and then without the restrictions of an API key;
  -- or the key is one of the user's, and then with the restrictions of that key.
  pub auth_with_api_key_sound :
      (headers : HeaderMap) (u : SlimUser) (k : Option UserApiKey)
      → auth_with_api_key services headers ≡ (some u, k)
      → (key : String) × (get_api_key_from_headers headers ≡ some key)
        × (AdminLogin headers key u × (k ≡ none)
            ⊎ (k' : UserApiKey) × (k ≡ some k') × (services.user_from_api_key key ≡ ok (u, k')))
  unfolding auth_with_api_key
  auth_with_api_key_sound headers u k h = elim (Option-cases (get_api_key_from_headers headers)) [
    | inl e ↦ absurd (nobody u k (rw (e, auth_with_api_key) at h))
    | inr (key, e) ↦ (key, e, log_in_sound headers key u k (rw (e, auth_with_api_key) at h))
  ]

  -- Where ADMIN_API_KEY is not set, an empty key logs in the owner of the organization that the
  -- headers name.
  empty_key_login :
      (headers : HeaderMap) (org : String) (id : Uuid) (u : SlimUser)
      → services.admin_api_key ≡ none
      → headers "Authorization" ≡ some (some "")
      → get_org_id_from_headers headers ≡ some org
      → services.parse_uuid org ≡ some id
      → services.owner_of_org id ≡ ok u
      → auth_with_api_key services headers ≡ (some u, none)
  unfolding auth_with_api_key get_api_key_from_headers strip_bearer
  empty_key_login headers org id u a b c d e =
      rw (auth_with_api_key, get_api_key_from_headers, b, a, c, d, e) refl
