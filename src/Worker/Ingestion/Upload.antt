-- ===== src/Worker/Ingestion/Upload.antt =====
-- upload_chunk of server/src/bin/ingestion-worker.rs: one chunk into the database and the vector
-- store. A float is a value of `F`, a sparse vector one of `Sparse`.
pub mod Ends
pub mod Examples
use trieve.Prelude.{
  ℕ, String, str_eq, Bool, true, false, Option, none, some, List, [], ◌∷◌, map, length, ◌==◌, ◌&&◌,
  unwrap_or, if◌then◌else◌,
}
use trieve.Errors.{
  ServiceError, bad_request, internal_server_error, Result, ok, err, map_err, ok_or, ◌>>=◌,
}
pub use trieve.Errors.{Outcome, returned, panicked, chain}
use trieve.Models.{Uuid, Boost, ChunkReqPayload, UploadIngestionMessage}

-- `ChunkDataWithEmbeddingText`, as far as it is read here.
pub record EmbeddingText : Type 0 where
  pub content : String
  pub embedding_content : String
  pub fulltext_boost : Option Boost

-- How `insert_chunk_metadata_query` of server/src/operators/chunk_operator.rs ends: it fails before the
-- row is written, or after it, at the bookmarks or the tags, or it goes through. The ids are that of the
-- row, which an upsert may have overwritten, and its point id.
pub data RowInsert : Type 0 where
  unwritten : ServiceError → RowInsert
  half_written : Uuid → ServiceError → RowInsert
  written : Uuid → Uuid → RowInsert

-- The configuration of the dataset, the libraries, the model servers, the database and the vector
-- store.
pub record Services (F Sparse : Type 0) : Type 0 where
  pub html_to_text : String → String
  pub parse_time : String → Option String
  -- `coarse_doc_chunker(text, None, false, 20)`
  pub chunker : String → List String
  pub semantic_enabled : Bool
  pub fulltext_enabled : Bool
  pub bm25_enabled : Bool
  -- `std::env::var("BM25_ACTIVE")`
  pub bm25_active : Option String
  pub get_dense_vectors : List (String × Option Boost) → Result (List (List F))
  pub average_embeddings : List (List F) → Result (List F)
  pub get_sparse_vectors : List (String × Option Boost) → Result (List Sparse)
  -- `vec![(0, 0.0)]`
  pub zero_sparse : Sparse
  pub get_bm25_embeddings : List (String × Option Boost) → List Sparse
  pub insert_chunk_metadata : Uuid → Option (List Uuid) → Uuid → Bool → RowInsert
  pub get_groups : List Uuid → Result (Unit {0})
  -- the point id, the named dense vector, the sparse vectors
  pub upsert_point : Uuid → Option (String × List F) → Sparse → Option Sparse → Result (Unit {0})
  pub revert : Uuid → Result (Unit {0})
  -- the text of "Failed to create embedding: {:?}"
  pub failed_embedding : ServiceError → String

-- What was done: a row was inserted, or overwritten by an upsert, its point was stored, the row was taken back.
pub data Write : Type 0 where
  inserted stored reverted : Uuid → Write

abbrev pub first_or_panic : {A : Type 0} → List A → Outcome A
first_or_panic [] = panicked
first_or_panic (x ∷ xs) = returned (ok x)

abbrev pub first_of : {A : Type 0} → List A → Option A
first_of [] = none
first_of (x ∷ xs) = some x

-- `match get_sparse_vectors(..).await`
abbrev pub sparse_of : {A : Type 0} → Result (List A) → Outcome A
sparse_of (ok vectors) = first_or_panic vectors
sparse_of (err e) = returned (err e)

abbrev pub used_boost : Option Boost → Option Boost
used_boost none = none
used_boost (some boost) = if str_eq boost.phrase "" then none else some boost

-- `Some("384_vectors")` and so on; `none` where the size is not one of these.
abbrev pub vector_name : ℕ → Option String
vector_name n =
    if n == 384
    then some "384_vectors"
    else if n == 512
    then some "512_vectors"
    else if n == 768
    then some "768_vectors"
    else if n == 1024
    then some "1024_vectors"
    else if n == 3072
    then some "3072_vectors"
    else if n == 1536
    then some "1536_vectors"
    else none

module _ {F Sparse : Type 0} (services : Services F Sparse) where
  abbrev pub as_text : ChunkReqPayload → String → String
  as_text chunk html =
      if unwrap_or chunk.convert_html_to_text true then services.html_to_text html else html

  abbrev pub check_time_stamp : Option String → Result (Option String)
  check_time_stamp none = ok none
  check_time_stamp (some text) =
      ok_or (services.parse_time text) (bad_request "Invalid timestamp format") >>= λ time.
      ok (some time)

  unfoldable pub dense_vector : ChunkReqPayload → String → Result (List F)
  dense_vector chunk semantic_content =
      if unwrap_or chunk.split_avg false
      then services.get_dense_vectors
          (map (λ part. (part, chunk.semantic_boost)) (services.chunker semantic_content))
        >>= services.average_embeddings
      else (map_err (λ e. internal_server_error (services.failed_embedding e))
            (services.get_dense_vectors ((semantic_content, chunk.semantic_boost) ∷ []))
          >>= λ vectors.
              ok_or (first_of vectors) (internal_server_error "Failed to get first embedding"))

  unfoldable pub embedding_vector : ChunkReqPayload → String → Result (Option (List F))
  embedding_vector chunk semantic_content =
      if services.semantic_enabled
      then (dense_vector chunk semantic_content >>= λ vector. ok (some vector))
      else ok none

  unfoldable pub splade_vector : EmbeddingText → Outcome Sparse
  splade_vector text =
      if services.fulltext_enabled
      then sparse_of
          (services.get_sparse_vectors ((text.content, used_boost text.fulltext_boost) ∷ []))
      else returned (ok services.zero_sparse)

  unfoldable pub bm25_vector : EmbeddingText → Outcome (Option Sparse)
  bm25_vector text =
      if services.bm25_enabled && str_eq (unwrap_or services.bm25_active "false") "true"
      then chain
          (first_or_panic (services.get_bm25_embeddings ((text.content, text.fulltext_boost) ∷ [])))
          (λ vector. returned (ok (some vector)))
      else returned (ok none)

  -- All that is computed before the insert: the dense vector and the two sparse ones.
  unfoldable pub vectors_of :
      UploadIngestionMessage → EmbeddingText → Outcome (Option (List F) × Sparse × Option Sparse)
  vectors_of payload text = chain (returned (check_time_stamp payload.chunk.time_stamp)) (λ time.
      if str_eq (as_text payload.chunk (unwrap_or payload.chunk.chunk_html "")) ""
      then returned (err (bad_request "Chunk must not have empty chunk_html"))
      else chain
          (returned (embedding_vector payload.chunk (as_text payload.chunk text.embedding_content)))
          (λ embedding.
            chain (splade_vector text) (λ sparse.
              chain (bm25_vector text) (λ bm25. returned (ok (embedding, sparse, bm25))))))

  -- The tags of the groups are read, where the chunk has groups.
  abbrev pub read_groups : Option (List Uuid) → Result (Unit {0})
  read_groups none = ok tt
  read_groups (some ids) = services.get_groups ids

  abbrev pub name_vector : Option (List F) → Result (Option (String × List F))
  name_vector none = ok none
  name_vector (some vector) = elim (vector_name (length vector)) [
    | none ↦ err (bad_request "Invalid embedding vector size")
    | some name ↦ ok (some (name, vector))
  ]

  -- `if let Err(e) = bulk_upsert_qdrant_points_query(..)`
  unfoldable pub take_back : Bool → Uuid → ServiceError → List Write → Result Uuid × List Write
  take_back upsert_by_tracking_id id e writes =
      if upsert_by_tracking_id
      then (elim (services.revert id) [
        | err x ↦ (err x, writes)
        | ok _ ↦ (err e, reverted id ∷ writes)
      ])
      else (err e, writes)

  -- From the inserted row on; the state is what was done, newest first.
  unfoldable pub store_point :
      UploadIngestionMessage
      → Option (List F) × Sparse × Option Sparse
      → Uuid
      → Uuid
      → List Write
      → Result Uuid × List Write
  store_point payload (embedding, sparse, bm25) id point_id writes =
      elim (read_groups payload.chunk.group_ids) [
        | err e ↦ (err e, writes)
        | ok _ ↦ elim (name_vector embedding) [
          | err e ↦ (err e, writes)
          | ok named ↦ elim (services.upsert_point point_id named sparse bm25) [
            | ok _ ↦ (ok id, stored point_id ∷ writes)
            | err e ↦ take_back payload.upsert_by_tracking_id id e writes
          ]
        ]
      ]

  unfoldable pub insert_and_store :
      UploadIngestionMessage
      → Option (List F) × Sparse × Option Sparse
      → List Write
      → Result Uuid × List Write
  insert_and_store payload vectors writes =
      elim (services.insert_chunk_metadata payload.id payload.chunk.group_ids payload.dataset_id
        payload.upsert_by_tracking_id) [
          | unwritten e ↦ (err e, writes)
          | half_written id e ↦ (err e, inserted id ∷ writes)
          | written id point_id ↦ store_point payload vectors id point_id (inserted id ∷ writes)
        ]

  abbrev pub lift : Result Uuid × List Write → Outcome Uuid × List Write
  lift (result, writes) = (returned result, writes)

  unfoldable pub upload_chunk :
      UploadIngestionMessage → EmbeddingText → List Write → Outcome Uuid × List Write
  upload_chunk payload text writes = elim (vectors_of payload text) [
    | panicked ↦ (panicked, writes)
    | returned (err e) ↦ (returned (err e), writes)
    | returned (ok vectors) ↦ lift (insert_and_store payload vectors writes)
  ]
