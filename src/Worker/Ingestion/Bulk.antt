-- ===== src/Worker/Ingestion/Bulk.antt =====
-- bulk_upload_chunks of server/src/bin/ingestion-worker.rs, with bulk_insert_chunk_metadata_query of
-- server/src/operators/chunk_operator.rs: the chunks of one message into the database and the vector
-- store.
pub mod Insert
pub mod Points
pub mod Made
pub mod Ends
pub mod Rows
pub mod Kept
pub mod Vectors
pub mod Examples
use trieve.Prelude.{
  String, str_eq, Bool, true, false, Option, none, some, List, [], ◌∷◌, ◌++◌, map, ◌&&◌, not, any,
  retain, length, unwrap_or, if◌then◌else◌, is_empty, ℕ, zero, suc,
}
use trieve.Errors.{ServiceError, internal_server_error, Result, ok, err}
use trieve.Models.{Uuid, Boost, UploadIngestionMessage, BulkUploadIngestionMessage}
use trieve.Enqueue.{ChunkMetadata, non_empty}
use trieve.Worker.Ingestion.Upload.{
  Services, EmbeddingText, Write, stored, reverted, Outcome, returned, panicked, as_text,
  used_boost, upload_chunk,
}
use trieve.Worker.Ingestion.Bulk.Insert.{Database, ChunkData, bulk_insert_chunk_metadata_query}
use trieve.Worker.Ingestion.Bulk.Points.{Point, qdrant_points, all_points}

-- What the bulk path calls beyond the services of one upload.
pub record BulkServices (F Sparse : Type 0) : Type 0 where
  pub single : Services F Sparse
  -- what the clock reads when the row of the chunk with this id is made, twice
  pub now : Uuid → ℕ × ℕ
  pub database : Database
  pub bulk_revert : List Uuid → Result (Unit {0})
  pub bulk_upsert : List (Point F Sparse) → Result (Unit {0})
  -- the text of "Failed to create embeddings: {:?}"
  pub failed_embeddings : ServiceError → String

module _ {F Sparse : Type 0} (services : BulkServices F Sparse) where
  abbrev pub time_of : Option String → Option String
  time_of none = none
  time_of (some text) = services.single.parse_time text

  -- The closure that makes the `ChunkDataWithEmbeddingText` of a message.
  abbrev pub data_of : Uuid → UploadIngestionMessage → ChunkData
  data_of dataset_id message = record {
    chunk_metadata = record {
      id = message.id;
      qdrant_point_id = message.qdrant_point_id;
      created_at = (services.now message.id).0;
      updated_at = (services.now message.id).1;
      dataset_id = dataset_id;
      chunk_html = message.chunk.chunk_html;
      tag_set = elim message.chunk.tag_set [
        | none ↦ none
        | some tags ↦ some (map (λ t. some t) tags)
      ];
      tracking_id = non_empty message.chunk.tracking_id;
      time_stamp = time_of message.chunk.time_stamp;
      rest = message.chunk.rest;
    };
    content = as_text services.single message.chunk (unwrap_or message.chunk.chunk_html "");
    embedding_content =
        unwrap_or message.chunk.semantic_content
          (as_text services.single message.chunk (unwrap_or message.chunk.chunk_html ""));
    group_ids = message.chunk.group_ids;
    fulltext_boost = used_boost message.chunk.fulltext_boost;
    semantic_boost = used_boost message.chunk.semantic_boost;
  }

  unfoldable pub ingestion_data : BulkUploadIngestionMessage → List ChunkData
  ingestion_data payload =
      retain (λ item. not (str_eq item.content ""))
        (map (data_of payload.dataset_id) payload.ingestion_messages)

  abbrev pub text_of : ChunkData → EmbeddingText
  text_of item = record {
    content = item.content;
    embedding_content = item.embedding_content;
    fulltext_boost = item.fulltext_boost;
  }

  -- `if let Ok(chunk_uuid) = upload_chunk_result`
  abbrev pub push_id :
      Result Uuid → Outcome (List Uuid) × List Write → Outcome (List Uuid) × List Write
  push_id (ok id) (returned (ok ids), writes) = (returned (ok (id ∷ ids)), writes)
  push_id _ ends = ends

  -- The loop over `izip!(payload.ingestion_messages, ingestion_data)`.
  unfoldable pub upload_each :
      List UploadIngestionMessage → List ChunkData → List Write → Outcome (List Uuid) × List Write
  upload_each (message ∷ messages) (item ∷ items) writes =
      let (outcome, after) = upload_chunk services.single message (text_of item) writes in
      elim outcome [
        | panicked ↦ (panicked, after)
        | returned result ↦ push_id result (upload_each messages items after)
      ]
  upload_each _ _ writes = (returned (ok []), writes)

  -- `if !upsert_by_tracking_id_being_used { bulk_revert_insert_chunk_metadata_query(..).await? }`,
  -- and then the error.
  unfoldable pub revert_unless :
      Bool → List Uuid → ServiceError → List Write → Result (List Uuid) × List Write
  revert_unless upsert ids e writes =
      if upsert then (err e, writes) else (elim (services.bulk_revert ids) [
        | err x ↦ (err x, writes)
        | ok _ ↦ (err e, map (λ id. reverted id) ids ++ writes)
      ])

  abbrev pub nones : {A : Type 0} → ℕ → List (Option A)
  nones zero = []
  nones (suc n) = none ∷ nones n

  abbrev pub zeros : ℕ → List Sparse
  zeros zero = []
  zeros (suc n) = services.single.zero_sparse ∷ zeros n

  unfoldable pub embedding_vectors : List ChunkData → Result (List (Option (List F)))
  embedding_vectors datas =
      if services.single.semantic_enabled
      then (elim (services.single.get_dense_vectors
          (map (λ item. (item.embedding_content, item.semantic_boost)) datas)) [
            | ok vectors ↦ ok (map (λ v. some v) vectors)
            | err e ↦ err (internal_server_error (services.failed_embeddings e))
          ])
      else ok (nones (length datas))

  abbrev pub contents : List ChunkData → List (String × Option Boost)
  contents datas = map (λ item. (item.content, item.fulltext_boost)) datas

  unfoldable pub splade_vectors : List ChunkData → Result (List Sparse)
  splade_vectors datas =
      if services.single.fulltext_enabled
      then services.single.get_sparse_vectors (contents datas)
      else ok (zeros (length datas))

  unfoldable pub bm25_vectors : List ChunkData → List (Option Sparse)
  bm25_vectors datas =
      if services.single.bm25_enabled
        && str_eq (unwrap_or services.single.bm25_active "false") "true"
      then map (λ v. some v) (services.single.get_bm25_embeddings (contents datas))
      else nones (length datas)

  abbrev pub ids_of : List ChunkData → List Uuid
  ids_of datas = map (λ item. item.chunk_metadata.id) datas

  -- From the points on: all of them are stored, or none.
  unfoldable pub store_points :
      Bool
      → List Uuid
      → List (Result (Point F Sparse))
      → List Write
      → Result (List Uuid) × List Write
  store_points upsert ids points writes = elim (all_points points) [
    | none ↦ (err (internal_server_error "Failed to create qdrant points"), writes)
    | some made ↦ elim (services.bulk_upsert made) [
      | err e ↦ revert_unless upsert ids e writes
      | ok _ ↦ (ok ids, map (λ point. stored point.point_id) made ++ writes)
    ]
  ]

  -- From the inserted rows on. The texts are those of `datas`, all the chunks of the message.
  unfoldable pub embed_and_store :
      Bool → List ChunkData → List ChunkData → List Write → Result (List Uuid) × List Write
  embed_and_store upsert datas inserted_datas writes = elim (embedding_vectors datas) [
    | err e ↦ revert_unless upsert (ids_of inserted_datas) e writes
    | ok dense ↦ elim (splade_vectors datas) [
      | err e ↦ revert_unless upsert (ids_of inserted_datas) e writes
      | ok sparse ↦
          store_points upsert (ids_of inserted_datas)
            (qdrant_points services.single inserted_datas dense sparse (bm25_vectors datas)) writes
    ]
  ]

  abbrev pub returning : Result (List Uuid) × List Write → Outcome (List Uuid) × List Write
  returning (result, writes) = (returned result, writes)

  abbrev pub after_insert :
      Bool
      → List ChunkData
      → Outcome (List ChunkData) × List Write
      → Outcome (List Uuid) × List Write
  after_insert upsert datas (panicked, writes) = (panicked, writes)
  after_insert upsert datas (returned (err e), writes) = (returned (err e), writes)
  after_insert upsert datas (returned (ok []), writes) = (returned (ok []), writes)
  after_insert upsert datas (returned (ok (d ∷ ds)), writes) =
      returning (embed_and_store upsert datas (d ∷ ds) writes)

  unfoldable pub bulk_upload_chunks :
      BulkUploadIngestionMessage → List Write → Outcome (List Uuid) × List Write
  bulk_upload_chunks payload writes =
      let datas = ingestion_data payload in
      let upsert = any (λ m. m.upsert_by_tracking_id) payload.ingestion_messages in
      if any (λ m. unwrap_or m.chunk.split_avg false) payload.ingestion_messages
      then upload_each payload.ingestion_messages datas writes
      else after_insert upsert datas
          (bulk_insert_chunk_metadata_query services.database datas upsert writes)
