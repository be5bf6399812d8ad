-- ===== src/Auth/ApiKey.antt =====
-- server/src/operators/user_operator.rs, `get_user_from_api_key_query`: the user behind an API key.
use trieve.Prelude.{
  String, Bool, false, Option, none, some, List, [], ◌∷◌, map, ◌==◌, find, if◌then◌else◌, ℤ, pos,
  negsuc,
}
use trieve.Errors.{bad_request, Result, ok, err, ◌>>=◌}
use trieve.Models.{Uuid}
use trieve.Auth.{UserOrganization, SlimUser, UserApiKey}

-- A row of the join of users, their organizations and the key.
pub record Row : Type 0 where
  pub user_id : Uuid
  pub profile : String
  pub user_org : UserOrganization
  pub api_key : UserApiKey

-- The database and the hashes: the rows of live organizations for a BLAKE3 or an Argon2 hash, `none`
-- where the query failed.
pub record KeyStore : Type 0 where
  pub hash_api_key : String → String
  pub hash_argon2_api_key : String → Result String
  pub rows_by_blake3 : String → Option (List Row)
  pub rows_by_argon2 : String → Option (List Row)
  -- whether the row of this Argon2 hash could be given this BLAKE3 hash
  pub set_blake3 : String → String → Bool

abbrev pub is_zero : ℤ → Bool
is_zero (pos n) = n == 0
is_zero (negsuc n) = false

-- The first row for a membership; the code unwraps it, and the membership's own row is one.
abbrev pub key_role : List Row → UserOrganization → Option ℤ
key_role rows o = elim (find (λ (r : Row). r.user_org.id == o.id) rows) [
  | none ↦ none
  | some r ↦ some r.api_key.role
]

-- The body of `for_each`: a read-only key leaves no role above zero.
abbrev pub cap_role : List Row → UserOrganization → UserOrganization
cap_role rows o = elim (key_role rows o) [
  | none ↦ o
  | some role ↦ if is_zero role then record o { role = pos 0 } else o
]

abbrev pub user_of : Row → List Row → SlimUser × UserApiKey
user_of first rows = (
  record {
    id = first.user_id;
    profile = first.profile;
    user_orgs = map (λ r. cap_role rows r.user_org) rows;
  },
  first.api_key,
)

abbrev loaded : Option (List Row) → String → Result (List Row)
loaded none message = err (bad_request message)
loaded (some rows) message = ok rows

module _ (store : KeyStore) where
  unfoldable pub by_argon2 : String → Result (SlimUser × UserApiKey)
  by_argon2 api_key = do
    argon2_hash ← store.hash_argon2_api_key api_key
    rows ← loaded (store.rows_by_argon2 argon2_hash) "API Key Incorrect"
    elim rows [
      | [] ↦ err (bad_request "API Key Incorrect")
      | first ∷ rest ↦
          if store.set_blake3 argon2_hash (store.hash_api_key api_key)
          then ok (user_of first (first ∷ rest))
          else err (bad_request "Error updating api key")
    ]

  unfoldable pub get_user_from_api_key : String → Result (SlimUser × UserApiKey)
  get_user_from_api_key api_key = do
    rows ← loaded (store.rows_by_blake3 (store.hash_api_key api_key)) "Error loading user"
    elim rows [ [] ↦ by_argon2 api_key | first ∷ rest ↦ ok (user_of first (first ∷ rest)) ]
