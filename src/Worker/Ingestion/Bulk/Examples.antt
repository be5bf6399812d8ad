-- ===== src/Worker/Ingestion/Bulk/Examples.antt =====
-- Runs of bulk_upload_chunks of server/src/bin/ingestion-worker.rs.
use trieve.Prelude.{ℕ, ◌≡◌, refl, String, true, false, none, some, [], ◌∷◌, map}
use trieve.Errors.{ok, err, bad_request, internal_server_error}
use trieve.Models.{UploadIngestionMessage, BulkUploadIngestionMessage}
use trieve.Worker.Ingestion.Upload.{written, Services, returned, inserted, stored, reverted}
use trieve.Worker.Ingestion.Bulk.Insert.{
  rows_to_insert, link_chunks, tag_all, ChunkData, attach_rows, was_inserted, unique_rows,
  bulk_insert_chunk_metadata_query,
}
use trieve.Worker.Ingestion.Bulk.Points.{all_points, qdrant_points, point_of}
use trieve.Worker.Ingestion.Bulk.{
  embed_and_store, embedding_vectors, splade_vectors, bm25_vectors, revert_unless, BulkServices,
  bulk_upload_chunks, ingestion_data, store_points, data_of,
}
use trieve.Worker.Ingestion.Bulk.Ends.{InsertedEnds, bulk_upload_chunks-InsertedEnds}

-- The model for sparse vectors answers each text with itself; the other models are off.
abbrev single : Services ℕ String
single = record {
  html_to_text = λ html. html;
  parse_time = λ text. none;
  chunker = λ text. text ∷ [];
  semantic_enabled = false;
  fulltext_enabled = true;
  bm25_enabled = false;
  bm25_active = none;
  get_dense_vectors = λ texts. ok (map (λ _. []) texts);
  average_embeddings = λ vectors. ok [];
  get_sparse_vectors = λ texts. ok (map (λ t. t.0) texts);
  zero_sparse = "zero";
  get_bm25_embeddings = λ texts. map (λ t. t.0) texts;
  insert_chunk_metadata = λ id groups dataset upsert. written id 200;
  get_groups = λ ids. ok tt;
  upsert_point = λ point vector sparse bm25. ok tt;
  revert = λ id. ok tt;
  failed_embedding = λ e. "failed";
}

-- A database in which no row collides.
abbrev pub services : BulkServices ℕ String
services = record {
  single = single;
  now = λ id. (5, 6);
  database = record {
    insert_or_nothing = λ rows. some rows;
    insert_or_update = λ rows. some rows;
    insert_bookmarks = λ links. true;
    insert_tags = λ tags id. ok tt;
  };
  bulk_revert = λ ids. ok tt;
  bulk_upsert = λ points. ok tt;
  failed_embeddings = λ e. "failed";
}

abbrev pub message : ℕ → String → UploadIngestionMessage
message id html = record {
  id = id;
  qdrant_point_id = 100;
  chunk = record {
    chunk_html = some html;
    tag_set = none;
    tracking_id = some html;
    upsert_by_tracking_id = none;
    group_ids = none;
    group_tracking_ids = none;
    time_stamp = none;
    split_avg = none;
    convert_html_to_text = none;
    fulltext_boost = none;
    semantic_boost = none;
    semantic_content = none;
    rest = "{}";
  };
  dataset_id = 7;
  upsert_by_tracking_id = false;
}

abbrev payload : BulkUploadIngestionMessage
payload = record {
  attempt_number = 0;
  dataset_id = 7;
  ingestion_messages = message 1 "first" ∷ message 2 "second" ∷ [];
}

abbrev pub first : ChunkData
first = record (data_of services 7 (message 1 "first")) {
  chunk_metadata = record {
    id = 1;
    qdrant_point_id = 100;
    created_at = 5;
    updated_at = 6;
    dataset_id = 7;
    chunk_html = some "first";
    tag_set = some [];
    tracking_id = some "first";
    time_stamp = none;
    rest = "{}";
  };
}

abbrev pub second : ChunkData
second = record (data_of services 7 (message 2 "second")) {
  chunk_metadata = record {
    id = 2;
    qdrant_point_id = 100;
    created_at = 5;
    updated_at = 6;
    dataset_id = 7;
    chunk_html = some "second";
    tag_set = some [];
    tracking_id = some "second";
    time_stamp = none;
    rest = "{}";
  };
}

stored_test :
    bulk_upload_chunks services payload []
    ≡ (returned (ok (1 ∷ 2 ∷ [])), stored 100 ∷ stored 100 ∷ inserted 1 ∷ inserted 2 ∷ [])
unfolding bulk_upload_chunks bulk_insert_chunk_metadata_query attach_rows ingestion_data
    was_inserted rows_to_insert unique_rows link_chunks tag_all embed_and_store embedding_vectors
    splade_vectors store_points all_points qdrant_points bm25_vectors point_of revert_unless
stored_test = refl

-- The database leaves out the first chunk, and the vector store complains about what it is sent.
abbrev colliding : BulkServices ℕ String
colliding = record services {
  database = record services.database {
    insert_or_nothing = λ rows. some (second.chunk_metadata ∷ []);
  };
  bulk_upsert = λ points. elim points [ [] ↦ ok tt | point ∷ _ ↦ err (bad_request point.sparse) ];
}

-- The point of the second chunk is sent with the vector of the first one.
misaligned_test :
    bulk_upload_chunks colliding payload []
    ≡ (returned (err (bad_request "first")), reverted 2 ∷ inserted 2 ∷ [])
unfolding bulk_upload_chunks bulk_insert_chunk_metadata_query attach_rows ingestion_data
    was_inserted rows_to_insert unique_rows link_chunks tag_all embed_and_store embedding_vectors
    splade_vectors store_points all_points qdrant_points bm25_vectors point_of revert_unless
misaligned_test = refl

-- A vector of the size 3 has no place in the vector store: the rows stay.
abbrev odd_size : BulkServices ℕ String
odd_size = record services {
  single = record single {
    semantic_enabled = true;
    get_dense_vectors = λ texts. ok (map (λ _. 0 ∷ 0 ∷ 0 ∷ []) texts);
  };
}

left_test : bulk_upload_chunks odd_size payload [] ≡ (
  returned (err (internal_server_error "Failed to create qdrant points")),
  inserted 1 ∷ inserted 2 ∷ [],
)
unfolding bulk_upload_chunks bulk_insert_chunk_metadata_query attach_rows ingestion_data
    was_inserted rows_to_insert unique_rows link_chunks tag_all embed_and_store embedding_vectors
    splade_vectors store_points all_points qdrant_points bm25_vectors point_of revert_unless
left_test = refl

-- The next attempt finds the rows in the database, and reports success.
lost_test :
    bulk_upload_chunks
      (record odd_size {
        database = record services.database { insert_or_nothing = λ rows. some [] };
      })
      payload
      []
    ≡ (returned (ok []), [])
unfolding bulk_upload_chunks bulk_insert_chunk_metadata_query attach_rows ingestion_data
    was_inserted rows_to_insert unique_rows link_chunks tag_all embed_and_store embedding_vectors
    splade_vectors store_points all_points qdrant_points bm25_vectors point_of revert_unless
lost_test = refl

bulk_upload_chunks-InsertedEnds_example :
    InsertedEnds services false
      (ingestion_data services payload)
      (bulk_insert_chunk_metadata_query services.database
        (ingestion_data services payload)
        false
        [])
      (bulk_upload_chunks services payload [])
bulk_upload_chunks-InsertedEnds_example = bulk_upload_chunks-InsertedEnds services payload [] refl
