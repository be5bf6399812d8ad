-- ===== src/Worker/Ingestion/Update/Writes.antt =====
-- What update_chunk of server/src/bin/ingestion-worker.rs has written when it returns.
use trieve.Prelude.{◌≡◌, ◌⊎◌, Option, none, some, List, [], ◌∷◌}
use trieve.Errors.{ServiceError, Result, ok, err, map_err, err-ne-ok}
use trieve.Models.{Uuid, UnifiedId}
use trieve.Worker.Ingestion.{UpdateIngestionMessage}
use trieve.Worker.Ingestion.Update.{Write, half_written, Services, as_bad_request, row_of, point_of}

map_err-ok :
    {A : Type 0} (m : Result A) (f : ServiceError → ServiceError) (a : A)
    → map_err f m ≡ ok a
    → m ≡ ok a
map_err-ok (ok b) f a h = h
map_err-ok (err e) f a h = absurd (err-ne-ok h)

module _ {Dense Sparse : Type 0} (services : Services Dense Sparse) where
  -- The groups are those of the dataset that the names stand for, in their order.
  abbrev pub AllOwned : Uuid → List UnifiedId → List Uuid → Type 0
  AllOwned dataset [] [] = Unit {0}
  AllOwned dataset (id ∷ ids) (group ∷ groups) =
      (services.dataset_owns_group id dataset ≡ ok group) × AllOwned dataset ids groups
  AllOwned dataset _ _ = ⊥

  abbrev pub Owned : Uuid → Option (List UnifiedId) → Option (List Uuid) → Type 0
  Owned dataset none none = Unit {0}
  Owned dataset (some ids) (some groups) = AllOwned dataset ids groups
  Owned dataset _ _ = ⊥

  -- The ends of an update: both writes were made, with the same groups; or none was, and the update
  -- failed; or only the row was written, and the vector store failed, or the update of the row failed
  -- after it had written the row.
  abbrev pub Ends :
      UpdateIngestionMessage
      → List (Write Dense Sparse)
      → Result (Unit {0}) × List (Write Dense Sparse)
      → Type 0
  Ends payload writes (result, after) =
      ((embedding : Option Dense) × (groups : Option (List Uuid)) × Owned payload.dataset_id
          payload.group_ids groups
        × (result ≡ ok tt)
        × (after
            ≡ point_of services payload embedding groups ∷ row_of services payload groups ∷ writes))
      ⊎ ((e : ServiceError) × (result ≡ err e) × (after ≡ writes))
      ⊎ ((e : ServiceError) × (groups : Option (List Uuid)) × Owned payload.dataset_id
            payload.group_ids groups
          × (services.update_qdrant_point groups ≡ err e)
          × (result ≡ err (as_bad_request e))
          × (after ≡ row_of services payload groups ∷ writes))
      ⊎ ((e : ServiceError) × (groups : Option (List Uuid)) × Owned payload.dataset_id
            payload.group_ids groups
          × (services.update_chunk_metadata groups ≡ half_written e)
          × (result ≡ err e)
          × (after ≡ row_of services payload groups ∷ writes))
