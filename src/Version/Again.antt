-- ===== src/Version/Again.antt =====
-- That the version of an answer of server/src/middleware/api_version.rs can be asked for again.
use trieve.Prelude.{ℕ, String, ◌≡◌, refl, sym, ap, ◌∙◌, Option, none, some}
use trieve.Errors.{Result, ok, err, ok-injective}
use trieve.Version.{
  ApiVersion, v1, v2, to_string, Calendar, Response, of_header, from_dataset, version_of,
  with_version, call,
}

module _ (calendar : Calendar) where
  version_of-to_string :
      (created_at : ℕ) (v : ApiVersion)
      → version_of calendar (some created_at) (some (to_string v)) ≡ some v
  unfolding version_of to_string
  version_of-to_string created_at v1 = refl
  version_of-to_string created_at v2 = refl

  named :
      {R : Type 0} (v : ApiVersion) (reply : Result (Response R)) (out : Response R)
      → with_version calendar (some v) reply ≡ ok out
      → out.x_api_version ≡ some (to_string v)
  named v (err e) out h = cc
  named v (ok response) out h = ap (λ r. r.x_api_version) (sym (ok-injective h))

  some_version :
      (created_at : ℕ) (header : Option String)
      → (v : ApiVersion) × (version_of calendar (some created_at) header ≡ some v)
  unfolding version_of
  some_version created_at none = (from_dataset calendar created_at, refl)
  some_version created_at (some text) = (of_header calendar created_at text, refl)

  -- A request for a data set that the service answers gets an answer whose header names the version
  -- that the service was given; asking again with this header gives the same answer, from a service
  -- that does not read the header itself.
  pub call-to_string :
      {R : Type 0} (created_at : ℕ) (header : Option String)
      (service : Option ApiVersion → Result (Response R)) (out : Response R)
      → call calendar (some created_at) header service ≡ ok out
      → (v : ApiVersion) × (version_of calendar (some created_at) header ≡ some v)
        × (out.x_api_version ≡ some (to_string v))
        × (call calendar (some created_at) out.x_api_version service ≡ ok out)
  unfolding call
  call-to_string created_at header service out h =
      let (v, e) = some_version created_at header in
      let h' : with_version calendar (some v) (service (some v)) ≡ ok out =
        ap (λ w. with_version calendar w (service w)) (sym e) ∙ h in
      let n = named v (service (some v)) out h' in
      (
        v,
        e,
        n,
        ap
              (λ t.
                with_version calendar (version_of calendar (some created_at) t)
                  (service (version_of calendar (some created_at) t)))
              n
            ∙ ap (λ w. with_version calendar w (service w)) (version_of-to_string created_at v)
            ∙ h',
      )
