-- ===== src/Worker/Ingestion/Bulk/Made.antt =====
-- The points that bulk_upload_chunks of server/src/bin/ingestion-worker.rs makes of inserted chunks.
use trieve.Prelude.{
  ◌≡◌, ◌∙◌, sym, ap, subst, Option, some, inl, inr, List, [], ◌∷◌, Option-cases, none-ne-some,
  some-injective,
}
use trieve.Errors.{ok, Result-cases, err-ne-ok, ok-injective}
use trieve.Worker.Ingestion.Upload.{read_groups, name_vector}
use trieve.Worker.Ingestion.Bulk.Insert.{ChunkData}
use trieve.Worker.Ingestion.Bulk.Points.{Point, point_of, all_points, qdrant_points}
use trieve.Worker.Ingestion.Bulk.{BulkServices}

module _ {F Sparse : Type 0} (services : BulkServices F Sparse) where
  -- A point is that of an inserted chunk, under the point id of its row, with the vectors given.
  abbrev pub IsPoint :
      ChunkData → Option (List F) → Sparse → Option Sparse → Point F Sparse → Type 0
  IsPoint item embedding splade bm25 point =
      (point.point_id ≡ item.chunk_metadata.qdrant_point_id)
      × (point.chunk_metadata ≡ item.chunk_metadata)
      × (point.group_ids ≡ item.group_ids)
      × (name_vector services.single embedding ≡ ok point.dense)
      × (point.sparse ≡ splade)
      × (point.bm25 ≡ bm25)

  -- There is one point for each chunk that has its three vectors, in the order of the chunks.
  abbrev pub ArePoints :
      List ChunkData
      → List (Option (List F))
      → List Sparse
      → List (Option Sparse)
      → List (Point F Sparse)
      → Type 0
  ArePoints (c ∷ cs) (d ∷ ds) (s ∷ ss) (b ∷ bs) (p ∷ ps) =
      IsPoint c d s b p × ArePoints cs ds ss bs ps
  ArePoints (c ∷ cs) (d ∷ ds) (s ∷ ss) (b ∷ bs) [] = ⊥
  ArePoints _ _ _ _ [] = Unit {0}
  ArePoints _ _ _ _ (p ∷ ps) = ⊥

  point_of-IsPoint :
      (item : ChunkData) (embedding : Option (List F)) (splade : Sparse) (bm25 : Option Sparse)
      (point : Point F Sparse)
      → point_of services.single item embedding splade bm25 ≡ ok point
      → IsPoint item embedding splade bm25 point
  unfolding point_of
  point_of-IsPoint item embedding splade bm25 point h =
      elim (Result-cases (read_groups services.single item.group_ids)) [
        | inr (x, a) ↦ absurd (err-ne-ok (rw (point_of, a) at h))
        | inl (u, a) ↦ elim (Result-cases (name_vector services.single embedding)) [
          | inr (x, b) ↦ absurd (err-ne-ok (rw (point_of, a, b) at h))
          | inl (named, b) ↦
              let e = sym (ok-injective (rw (point_of, a, b) at h)) in
              (
                ap (λ p. p.point_id) e,
                ap (λ p. p.chunk_metadata) e,
                ap (λ p. p.group_ids) e,
                b ∙ ap (λ p. ok p.dense) (sym e),
                ap (λ p. p.sparse) e,
                ap (λ p. p.bm25) e,
              )
        ]
      ]

  no_points : (made : List (Point F Sparse)) → some [] ≡ some made → made ≡ []
  no_points made h = sym (some-injective h)

  pub qdrant_points-ArePoints :
      (cs : List ChunkData) (ds : List (Option (List F))) (ss : List Sparse)
      (bs : List (Option Sparse)) (made : List (Point F Sparse))
      → all_points (qdrant_points services.single cs ds ss bs) ≡ some made
      → ArePoints cs ds ss bs made
  unfolding qdrant_points all_points
  qdrant_points-ArePoints [] ds ss bs made h = rw (no_points made h) tt
  qdrant_points-ArePoints (c ∷ cs) [] ss bs made h = rw (no_points made h) tt
  qdrant_points-ArePoints (c ∷ cs) (d ∷ ds) [] bs made h = rw (no_points made h) tt
  qdrant_points-ArePoints (c ∷ cs) (d ∷ ds) (s ∷ ss) [] made h = rw (no_points made h) tt
  qdrant_points-ArePoints (c ∷ cs) (d ∷ ds) (s ∷ ss) (b ∷ bs) made h =
      elim (Result-cases (point_of services.single c d s b)) [
        | inr (x, a) ↦ absurd (none-ne-some (rw (a, all_points) at h))
        | inl (p, a) ↦
            elim (Option-cases (all_points (qdrant_points services.single cs ds ss bs))) [
              | inl n ↦ absurd (none-ne-some (rw (a, all_points, n) at h))
              | inr (ps, n) ↦
                  subst (ArePoints (c ∷ cs) (d ∷ ds) (s ∷ ss) (b ∷ bs))
                    (some-injective (rw (a, all_points, n) at h))
                    (point_of-IsPoint c d s b p a, qdrant_points-ArePoints cs ds ss bs ps n)
            ]
      ]
