-- ===== src/Worker/Ingestion/Bulk/Vectors.antt =====
-- Which vectors the points of bulk_upload_chunks of server/src/bin/ingestion-worker.rs carry.
use trieve.Prelude.{
  ◌≡◌, String, str_eq, Option, some, none, List, map, unwrap_or, ◌&&◌, if◌then◌else◌,
}
use trieve.Errors.{Result, ok}
use trieve.Models.{Boost}
use trieve.Worker.Ingestion.Bulk.Insert.{ChunkData}
use trieve.Worker.Ingestion.Bulk.Points.{Point, point_of}
use trieve.Worker.Ingestion.Bulk.{BulkServices}

module _ {F Sparse : Type 0} (services : BulkServices F Sparse)
    -- The models embed each text by itself.
    (dense : String × Option Boost → List F) (splade bm25 : String × Option Boost → Sparse)
    (dense_lem : (texts : List (String × Option Boost))
      → services.single.get_dense_vectors texts ≡ ok (map dense texts))
    (splade_lem : (texts : List (String × Option Boost))
      → services.single.get_sparse_vectors texts ≡ ok (map splade texts))
    (bm25_lem : (texts : List (String × Option Boost))
      → services.single.get_bm25_embeddings texts ≡ map bm25 texts) where
  abbrev pub own_dense : ChunkData → Option (List F)
  own_dense item =
      if services.single.semantic_enabled
      then some (dense (item.embedding_content, item.semantic_boost))
      else none

  abbrev pub own_splade : ChunkData → Sparse
  own_splade item =
      if services.single.fulltext_enabled
      then splade (item.content, item.fulltext_boost)
      else services.single.zero_sparse

  abbrev pub own_bm25 : ChunkData → Option Sparse
  own_bm25 item =
      if services.single.bm25_enabled
        && str_eq (unwrap_or services.single.bm25_active "false") "true"
      then some (bm25 (item.content, item.fulltext_boost))
      else none

  -- The point of a chunk with the vectors of its own texts.
  abbrev pub own_point : ChunkData → Result (Point F Sparse)
  own_point item = point_of services.single item (own_dense item) (own_splade item) (own_bm25 item)
