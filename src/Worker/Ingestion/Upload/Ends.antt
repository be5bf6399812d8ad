-- ===== src/Worker/Ingestion/Upload/Ends.antt =====
-- What upload_chunk of server/src/bin/ingestion-worker.rs has done when it ends.
use trieve.Prelude.{◌≡◌, ◌⊎◌, true, List, ◌∷◌}
use trieve.Errors.{ServiceError, Result, ok, err}
use trieve.Models.{Uuid, UploadIngestionMessage}
use trieve.Worker.Ingestion.Upload.{
  half_written, written, Services, Write, inserted, stored, reverted, Outcome, returned, panicked,
}

module _ {F Sparse : Type 0} (services : Services F Sparse) (payload : UploadIngestionMessage) where
  -- What becomes of a row that was inserted: its point is stored; or the upload fails and the row
  -- stays without one; or the upload fails and the row is taken back, which is done for a chunk that
  -- upserts.
  abbrev pub RowEnds : Uuid → Uuid → List Write → Result Uuid × List Write → Type 0
  RowEnds id point_id writes (result, after) =
      (result ≡ ok id) × (after ≡ stored point_id ∷ writes)
      ⊎ ((e : ServiceError) × (result ≡ err e) × (after ≡ writes))
      ⊎ ((e : ServiceError) × (payload.upsert_by_tracking_id ≡ true)
          × (result ≡ err e)
          × (after ≡ reverted id ∷ writes))

  -- The ends of an upload: nothing was done, and it failed or panicked; or a row was inserted, with
  -- one of the three ends of a row; or the insert failed after it had written the row.
  abbrev pub UploadEnds : List Write → Outcome Uuid × List Write → Type 0
  UploadEnds writes (outcome, after) =
      (outcome ≡ panicked) × (after ≡ writes)
      ⊎ ((e : ServiceError) × (outcome ≡ returned (err e)) × (after ≡ writes))
      ⊎ ((id : Uuid) × (point_id : Uuid) × (result : Result Uuid) × (services.insert_chunk_metadata
              payload.id payload.chunk.group_ids payload.dataset_id payload.upsert_by_tracking_id
            ≡ written id point_id)
          × (outcome ≡ returned result)
          × RowEnds id point_id (inserted id ∷ writes) (result, after))
      ⊎ ((id : Uuid) × (e : ServiceError) × (services.insert_chunk_metadata payload.id
              payload.chunk.group_ids payload.dataset_id payload.upsert_by_tracking_id
            ≡ half_written id e)
          × (outcome ≡ returned (err e))
          × (after ≡ inserted id ∷ writes))
