-- ===== src/Worker/Ingestion/Bulk/Points.antt =====
-- The points that bulk_upload_chunks of server/src/bin/ingestion-worker.rs makes of the inserted
-- chunks and of the vectors.
use trieve.Prelude.{String, Option, none, some, List, [], ◌∷◌}
use trieve.Errors.{Result, ok, err}
use trieve.Models.{Uuid}
use trieve.Enqueue.{ChunkMetadata}
use trieve.Worker.Ingestion.Upload.{Services, read_groups, name_vector}
use trieve.Worker.Ingestion.Bulk.Insert.{ChunkData}

-- `PointStruct`: the id, what the payload is made of, and the named vectors.
pub record Point (F Sparse : Type 0) : Type 0 where
  pub point_id : Uuid
  pub chunk_metadata : ChunkMetadata
  pub group_ids : Option (List Uuid)
  pub dense : Option (String × List F)
  pub sparse : Sparse
  pub bm25 : Option Sparse

module _ {F Sparse : Type 0} (services : Services F Sparse) where
  unfoldable pub point_of :
      ChunkData → Option (List F) → Sparse → Option Sparse → Result (Point F Sparse)
  point_of item embedding splade bm25 = elim (read_groups services item.group_ids) [
    | err e ↦ err e
    | ok _ ↦ elim (name_vector services embedding) [
      | err e ↦ err e
      | ok named ↦ ok (record {
        point_id = item.chunk_metadata.qdrant_point_id;
        chunk_metadata = item.chunk_metadata;
        group_ids = item.group_ids;
        dense = named;
        sparse = splade;
        bm25 = bm25;
      })
    ]
  ]

  -- `izip!` of the four, which ends with the shortest.
  unfoldable pub qdrant_points :
      List ChunkData
      → List (Option (List F))
      → List Sparse
      → List (Option Sparse)
      → List (Result (Point F Sparse))
  qdrant_points (c ∷ cs) (d ∷ ds) (s ∷ ss) (b ∷ bs) = point_of c d s b ∷ qdrant_points cs ds ss bs
  qdrant_points _ _ _ _ = []

-- The points, if `any(|point| point.is_err())` does not hold.
unfoldable pub all_points {ℓ} : {P : Type ℓ} → List (Result P) → Option (List P)
all_points [] = some []
all_points (err e ∷ points) = none
all_points (ok p ∷ points) = elim (all_points points) [ none ↦ none | some made ↦ some (p ∷ made) ]
