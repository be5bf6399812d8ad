-- ===== src/Auth/ReadOnly.antt =====
-- server/src/operators/user_operator.rs: what a user may do who comes with a read-only API key.
use trieve.Prelude.{
  ◌≡◌, ap, subst, String, false, Option, none, some, List, [], ◌∷◌, Bool-cases, Option-cases, inl,
  inr,
}
use trieve.Errors.{ok, Result-cases, err-ne-ok, ok-injective}
use trieve.Models.{Uuid}
use trieve.Auth.{SlimUser, UserApiKey, verify_admin, verify_owner}
use trieve.Auth.ApiKey.{Row, KeyStore, user_of, by_argon2, get_user_from_api_key}
use trieve.Auth.Checks.{AllReadOnly, read_only_key}

-- The rows that a query found all carry a read-only key.
abbrev pub FoundReadOnly : Option (List Row) → Type 0
FoundReadOnly none = Unit {0}
FoundReadOnly (some rows) = AllReadOnly rows

-- A user who is neither an admin nor an owner of the organization.
abbrev pub IsPowerless : Uuid → SlimUser → Type 0
IsPowerless org u = (verify_admin u org ≡ false) × (verify_owner u org ≡ false)

first_row :
    (first : Row) (rest : List Row) (u : SlimUser) (k : UserApiKey) (org : Uuid)
    → AllReadOnly (first ∷ rest)
    → ok (user_of first (first ∷ rest)) ≡ ok (u, k)
    → IsPowerless org u
first_row first rest u k org only h =
    subst (IsPowerless org) (ap (λ (p : SlimUser × UserApiKey). p.0) (ok-injective h))
      (read_only_key first rest org only)

module _ (store : KeyStore) (api_key : String) (u : SlimUser) (k : UserApiKey) (org : Uuid) where
  by_argon2-IsPowerless :
      ((hash : String)
        → store.hash_argon2_api_key api_key ≡ ok hash
        → FoundReadOnly (store.rows_by_argon2 hash))
      → by_argon2 store api_key ≡ ok (u, k)
      → IsPowerless org u
  unfolding by_argon2
  by_argon2-IsPowerless only h = elim (Result-cases (store.hash_argon2_api_key api_key)) [
    | inr (x, a) ↦ absurd (err-ne-ok (rw (by_argon2, a) at h))
    | inl (hash, a) ↦ elim (Option-cases (store.rows_by_argon2 hash)) [
      | inl b ↦ absurd (err-ne-ok (rw (by_argon2, a, b) at h))
      | inr ([], b) ↦ absurd (err-ne-ok (rw (by_argon2, a, b) at h))
      | inr (first ∷ rest, b) ↦
          elim (Bool-cases (store.set_blake3 hash (store.hash_api_key api_key))) [
            | inr s ↦ absurd (err-ne-ok (rw (by_argon2, a, b, s) at h))
            | inl s ↦
                first_row first rest u k org (subst FoundReadOnly b (only hash a))
                  (rw (by_argon2, a, b, s) at h)
          ]
    ]
  ]

  -- If the rows that the database has for the hashes of a key all carry a read-only key, then the user
  -- whom the key loads passes neither the check for admins nor the one for owners in any
  -- organization, whatever roles the memberships have.
  pub get_user_from_api_key-IsPowerless :
      FoundReadOnly (store.rows_by_blake3 (store.hash_api_key api_key))
      → ((hash : String)
          → store.hash_argon2_api_key api_key ≡ ok hash
          → FoundReadOnly (store.rows_by_argon2 hash))
      → get_user_from_api_key store api_key ≡ ok (u, k)
      → IsPowerless org u
  unfolding get_user_from_api_key
  get_user_from_api_key-IsPowerless blake3 argon2 h =
      elim (Option-cases (store.rows_by_blake3 (store.hash_api_key api_key))) [
        | inl b ↦ absurd (err-ne-ok (rw (get_user_from_api_key, b) at h))
        | inr ([], b) ↦ by_argon2-IsPowerless argon2 (rw (get_user_from_api_key, b) at h)
        | inr (first ∷ rest, b) ↦
            first_row first rest u k org (subst FoundReadOnly b blake3)
              (rw (get_user_from_api_key, b) at h)
      ]
