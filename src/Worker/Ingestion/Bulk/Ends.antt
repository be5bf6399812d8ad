-- ===== src/Worker/Ingestion/Bulk/Ends.antt =====
-- What bulk_upload_chunks of server/src/bin/ingestion-worker.rs has done when it ends.
use trieve.Prelude.{
  ◌≡◌, ◌⊎◌, sym, subst, Option, inl, inr, refl, Bool, false, List, [], ◌∷◌, ◌++◌, map, any,
  unwrap_or, Bool-cases, Option-cases,
}
use trieve.Errors.{ServiceError, Result, ok, err, Result-cases}
use trieve.Models.{Uuid, BulkUploadIngestionMessage}
use trieve.Worker.Ingestion.Upload.{Write, stored, reverted, Outcome, returned, panicked}
use trieve.Worker.Ingestion.Bulk.Insert.{ChunkData, bulk_insert_chunk_metadata_query}
use trieve.Worker.Ingestion.Bulk.Points.{Point, all_points, qdrant_points}
use trieve.Worker.Ingestion.Bulk.{
  BulkServices, ids_of, revert_unless, store_points, embed_and_store, embedding_vectors,
  splade_vectors, bm25_vectors, after_insert, bulk_upload_chunks, ingestion_data,
}
use trieve.Worker.Ingestion.Bulk.Made.{ArePoints, qdrant_points-ArePoints}

module _ {F Sparse : Type 0} (services : BulkServices F Sparse) (upsert : Bool)
    (items : List ChunkData) where
  -- What becomes of inserted rows: the points of their chunks, with the vectors that were computed for
  -- all the items, are stored; or the upload fails and the rows stay; or it fails and all the rows are
  -- taken back, which is done where no chunk upserts.
  abbrev pub RowsEnd : List ChunkData → List Write → Result (List Uuid) × List Write → Type 0
  RowsEnd inserted_items writes (result, after) =
      ((dense : List (Option (List F))) × (sparse : List Sparse) × (points : List (Point F Sparse))
        × (embedding_vectors services items ≡ ok dense)
        × (splade_vectors services items ≡ ok sparse)
        × ArePoints services inserted_items dense sparse (bm25_vectors services items) points
        × (services.bulk_upsert points ≡ ok tt)
        × (result ≡ ok (ids_of services inserted_items))
        × (after ≡ map (λ point. stored point.point_id) points ++ writes))
      ⊎ ((e : ServiceError) × (result ≡ err e) × (after ≡ writes))
      ⊎ ((e : ServiceError) × (upsert ≡ false)
          × (result ≡ err e)
          × (after ≡ map (λ id. reverted id) (ids_of services inserted_items) ++ writes))

  revert_unless-RowsEnd :
      (inserted_items : List ChunkData) (e : ServiceError) (writes : List Write)
      → RowsEnd inserted_items writes
          (revert_unless services upsert (ids_of services inserted_items) e writes)
  unfolding revert_unless
  revert_unless-RowsEnd inserted_items e writes = elim (Bool-cases upsert) [
    | inl b ↦ rw (revert_unless, b) (inr (inl (e, refl, refl)))
    | inr b ↦ elim (Result-cases (services.bulk_revert (ids_of services inserted_items))) [
      | inr (x, r) ↦ rw (revert_unless, b, r) (inr (inl (x, refl, refl)))
      | inl (u, r) ↦ rw (revert_unless, b, r) (inr (inr (e, refl, refl, refl)))
    ]
  ]

  store_points-RowsEnd :
      (inserted_items : List ChunkData) (dense : List (Option (List F))) (sparse : List Sparse)
      (writes : List Write)
      → embedding_vectors services items ≡ ok dense
      → splade_vectors services items ≡ ok sparse
      → RowsEnd inserted_items writes (
          store_points services upsert
            (ids_of services inserted_items)
            (qdrant_points services.single inserted_items dense sparse
              (bm25_vectors services items))
            writes)
  unfolding store_points
  store_points-RowsEnd inserted_items dense sparse writes d s =
      let points =
        qdrant_points services.single inserted_items dense sparse (bm25_vectors services items) in
      elim (Option-cases (all_points points)) [
        | inl a ↦ rw (store_points, a) (inr (inl (_, refl, refl)))
        | inr (made, a) ↦ elim (Result-cases (services.bulk_upsert made)) [
          | inr (x, b) ↦ rw (store_points, a, b) (revert_unless-RowsEnd inserted_items x writes)
          | inl (tt, b) ↦
              rw (store_points, a, b)
                (inl (
                  dense,
                  sparse,
                  made,
                  d,
                  s,
                  qdrant_points-ArePoints services inserted_items dense sparse
                      (bm25_vectors services items) made a,
                  b,
                  refl,
                  refl,
                ))
        ]
      ]

  embed_and_store-stores :
      (inserted_items : List ChunkData) (dense : List (Option (List F))) (sparse : List Sparse)
      (writes : List Write)
      → embedding_vectors services items ≡ ok dense
      → splade_vectors services items ≡ ok sparse
      → embed_and_store services upsert items inserted_items writes
        ≡ store_points services upsert
            (ids_of services inserted_items)
            (qdrant_points services.single inserted_items dense sparse
              (bm25_vectors services items))
            writes
  unfolding embed_and_store
  embed_and_store-stores inserted_items dense sparse writes a b = rw (embed_and_store, a, b) refl

  embed_and_store-RowsEnd :
      (inserted_items : List ChunkData) (writes : List Write)
      → RowsEnd inserted_items writes (embed_and_store services upsert items inserted_items writes)
  unfolding embed_and_store
  embed_and_store-RowsEnd inserted_items writes =
      elim (Result-cases (embedding_vectors services items)) [
        | inr (x, a) ↦
            subst (RowsEnd inserted_items writes) (rw (embed_and_store, a) refl)
              (revert_unless-RowsEnd inserted_items x writes)
        | inl (dense, a) ↦ elim (Result-cases (splade_vectors services items)) [
          | inr (x, b) ↦
              subst (RowsEnd inserted_items writes) (rw (embed_and_store, a, b) refl)
                (revert_unless-RowsEnd inserted_items x writes)
          | inl (sparse, b) ↦
              subst (RowsEnd inserted_items writes)
                (sym (embed_and_store-stores inserted_items dense sparse writes a b))
                (store_points-RowsEnd inserted_items dense sparse writes a b)
        ]
      ]

  -- The ends after the insert `insert` has ended.
  abbrev pub InsertedEnds :
      Outcome (List ChunkData) × List Write → Outcome (List Uuid) × List Write → Type 0
  InsertedEnds (panicked, writes) (outcome, after) = (outcome ≡ panicked) × (after ≡ writes)
  InsertedEnds (returned (err e), writes) (outcome, after) =
      (outcome ≡ returned (err e)) × (after ≡ writes)
  InsertedEnds (returned (ok []), writes) (outcome, after) =
      (outcome ≡ returned (ok [])) × (after ≡ writes)
  InsertedEnds (returned (ok (d ∷ ds)), writes) (outcome, after) =
      (result : Result (List Uuid)) × (outcome ≡ returned result)
      × RowsEnd (d ∷ ds) writes (result, after)

  after_insert-InsertedEnds :
      (insert : Outcome (List ChunkData) × List Write)
      → InsertedEnds insert (after_insert services upsert items insert)
  after_insert-InsertedEnds (panicked, writes) = (refl, refl)
  after_insert-InsertedEnds (returned (err e), writes) = (refl, refl)
  after_insert-InsertedEnds (returned (ok []), writes) = (refl, refl)
  after_insert-InsertedEnds (returned (ok (d ∷ ds)), writes) =
      (_, refl, embed_and_store-RowsEnd (d ∷ ds) writes)

-- A bulk upload without split averages ends as its insert where that panics, fails or inserts
-- nothing. If it returns ids, they are those of all the inserted chunks, and the vector store has
-- accepted and keeps a point for each of these chunks that has its vectors, in their order, under the
-- point id of its row and with its groups; if it fails after the insert, the rows are all left, or,
-- where no chunk upserts, all taken back.
pub bulk_upload_chunks-InsertedEnds :
    {F Sparse : Type 0} (services : BulkServices F Sparse) (payload : BulkUploadIngestionMessage)
    (writes : List Write)
    → any (λ m. unwrap_or m.chunk.split_avg false) payload.ingestion_messages ≡ false
    → InsertedEnds services
        (any (λ m. m.upsert_by_tracking_id) payload.ingestion_messages)
        (ingestion_data services payload)
        (bulk_insert_chunk_metadata_query services.database
          (ingestion_data services payload)
          (any (λ m. m.upsert_by_tracking_id) payload.ingestion_messages)
          writes)
        (bulk_upload_chunks services payload writes)
unfolding bulk_upload_chunks
bulk_upload_chunks-InsertedEnds services payload writes h =
    rw (bulk_upload_chunks, h) (after_insert-InsertedEnds services _ _ _)
