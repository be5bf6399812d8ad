-- ===== src/Worker/Ingestion/Update.antt =====
-- update_chunk of server/src/bin/ingestion-worker.rs: an update of a chunk in the database and in the
-- vector store.
pub mod Writes
pub mod Examples
use trieve.Prelude.{
  ℕ, String, str_eq, Bool, true, false, Option, none, some, List, [], ◌∷◌, ◌&&◌, unwrap_or,
  if◌then◌else◌,
}
use trieve.Errors.{ServiceError, bad_request, display, Result, ok, err, map_err, ◌>>=◌}
use trieve.Models.{Uuid, UnifiedId, Boost}
use trieve.Worker.Ingestion.{UpdateIngestionMessage}

-- What is written: the row of the chunk, and its point with the vectors. Both get the same groups.
pub data Write (Dense Sparse : Type 0) : Type 0 where
  row : Uuid → Option (List Uuid) → Uuid → Write Dense Sparse
  point :
      Uuid → Option Dense → Option (List Uuid) → Uuid → Sparse → Option Sparse → Write Dense Sparse

-- How `update_chunk_metadata_query` of server/src/operators/chunk_operator.rs ends: it fails before the
-- row is written, or after it, at the bookmarks or the tags, or it goes through.
pub data RowUpdate : Type 0 where
  unwritten half_written : ServiceError → RowUpdate
  updated : RowUpdate

-- The configuration of the dataset, the model servers, the database and the vector store.
pub record Services (Dense Sparse : Type 0) : Type 0 where
  pub html_to_text : String → String
  pub semantic_enabled : Bool
  pub fulltext_enabled : Bool
  pub bm25_enabled : Bool
  -- `std::env::var("BM25_ACTIVE")`
  pub bm25_active : Option String
  pub get_dense_vector : String → Option Boost → Result Dense
  pub get_sparse_vectors : List (String × Option Boost) → Result (List Sparse)
  -- `vec![(0, 0.0)]`
  pub zero_sparse : Sparse
  pub get_bm25_embeddings : List (String × Option Boost) → List Sparse
  pub dataset_owns_group : UnifiedId → Uuid → Result Uuid
  pub update_chunk_metadata : Option (List Uuid) → RowUpdate
  pub update_qdrant_point : Option (List Uuid) → Result (Unit {0})

-- `map_err(|err| ServiceError::BadRequest(err.to_string()))`
abbrev pub as_bad_request : ServiceError → ServiceError
as_bad_request e = bad_request (display e)

abbrev pub first_or {ℓ} : {A : Type ℓ} → List A → A → A
first_or [] default = default
first_or (x ∷ xs) default = x

abbrev pub first {ℓ} : {A : Type ℓ} → List A → Option A
first [] = none
first (x ∷ xs) = some x

abbrev pub sparse_or_zero : {Sparse : Type 0} → Result (List Sparse) → Sparse → Sparse
sparse_or_zero (ok vectors) zero = first_or vectors zero
sparse_or_zero (err e) zero = zero

module _ {Dense Sparse : Type 0} (services : Services Dense Sparse) where
  abbrev pub content_of : UpdateIngestionMessage → String
  content_of payload =
      if unwrap_or payload.convert_html_to_text true
      then services.html_to_text (unwrap_or payload.chunk_html "")
      else unwrap_or payload.chunk_html ""

  unfoldable pub embedding_vector : UpdateIngestionMessage → Result (Option Dense)
  embedding_vector payload =
      if services.semantic_enabled
      then (do
        embedding ←
            map_err as_bad_request
              (services.get_dense_vector (content_of payload) payload.semantic_boost)
        ok (some embedding))
      else ok none

  abbrev pub splade_vector : UpdateIngestionMessage → Sparse
  splade_vector payload =
      if services.fulltext_enabled
      then sparse_or_zero
          (services.get_sparse_vectors ((content_of payload, payload.fulltext_boost) ∷ []))
          services.zero_sparse
      else services.zero_sparse

  abbrev pub bm25_vector : UpdateIngestionMessage → Option Sparse
  bm25_vector payload =
      if services.bm25_enabled && str_eq (unwrap_or services.bm25_active "false") "true"
      then first (services.get_bm25_embeddings ((content_of payload, payload.fulltext_boost) ∷ []))
      else none

  -- `for group_id in group_ids`
  unfoldable pub owned_groups : Uuid → List UnifiedId → Result (List Uuid)
  owned_groups dataset [] = ok []
  owned_groups dataset (id ∷ ids) = do
    group ← map_err as_bad_request (services.dataset_owns_group id dataset)
    groups ← owned_groups dataset ids
    ok (group ∷ groups)

  unfoldable pub chunk_group_ids : Uuid → Option (List UnifiedId) → Result (Option (List Uuid))
  chunk_group_ids dataset none = ok none
  chunk_group_ids dataset (some ids) = do groups ← owned_groups dataset ids; ok (some groups)

  -- All that is found out before the first write: the embedding, and the groups.
  unfoldable pub prepare : UpdateIngestionMessage → Result (Option Dense × Option (List Uuid))
  prepare payload =
      if str_eq (content_of payload) ""
      then err (bad_request "Chunk must not have empty chunk_html")
      else (do
        embedding ← embedding_vector payload
        groups ← chunk_group_ids payload.dataset_id payload.group_ids
        ok (embedding, groups))

  abbrev pub row_of : UpdateIngestionMessage → Option (List Uuid) → Write Dense Sparse
  row_of payload groups = row payload.chunk_metadata_id groups payload.dataset_id

  abbrev pub point_of :
      UpdateIngestionMessage → Option Dense → Option (List Uuid) → Write Dense Sparse
  point_of payload embedding groups =
      point payload.chunk_metadata_id embedding groups payload.dataset_id (splade_vector payload)
        (bm25_vector payload)

  -- The two writes; the state is what was written, newest first.
  unfoldable pub write_both :
      UpdateIngestionMessage
      → Option Dense × Option (List Uuid)
      → List (Write Dense Sparse)
      → Result (Unit {0}) × List (Write Dense Sparse)
  write_both payload (embedding, groups) writes = elim (services.update_chunk_metadata groups) [
    | unwritten e ↦ (err e, writes)
    | half_written e ↦ (err e, row_of payload groups ∷ writes)
    | updated ↦ elim (services.update_qdrant_point groups) [
      | err e ↦ (err (as_bad_request e), row_of payload groups ∷ writes)
      | ok _ ↦ (ok tt, point_of payload embedding groups ∷ row_of payload groups ∷ writes)
    ]
  ]

  unfoldable pub update_chunk :
      UpdateIngestionMessage
      → List (Write Dense Sparse)
      → Result (Unit {0}) × List (Write Dense Sparse)
  update_chunk payload writes = elim (prepare payload) [
    | err e ↦ (err e, writes)
    | ok found ↦ write_both payload found writes
  ]
