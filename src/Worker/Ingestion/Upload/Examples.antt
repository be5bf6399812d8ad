-- ===== src/Worker/Ingestion/Upload/Examples.antt =====
-- Runs of upload_chunk of server/src/bin/ingestion-worker.rs.
use trieve.Prelude.{ℕ, zero, suc, ◌≡◌, refl, String, true, false, none, some, List, [], ◌∷◌}
use trieve.Errors.{ok, err, bad_request}
use trieve.Models.{UploadIngestionMessage}
use trieve.Worker.Ingestion.Upload.{
  written, half_written, EmbeddingText, Services, inserted, stored, returned, panicked,
  dense_vector, embedding_vector, splade_vector, bm25_vector, vectors_of, take_back, store_point,
  insert_and_store, upload_chunk,
}

-- A vector of `n` zeros.
abbrev zeros : ℕ → List ℕ
zeros zero = []
zeros (suc n) = 0 ∷ zeros n

abbrev services : Services ℕ String
services = record {
  html_to_text = λ html. "text";
  parse_time = λ text. none;
  chunker = λ text. text ∷ [];
  semantic_enabled = true;
  fulltext_enabled = true;
  bm25_enabled = false;
  bm25_active = none;
  get_dense_vectors = λ texts. ok (zeros 384 ∷ []);
  average_embeddings = λ vectors. ok (zeros 384);
  get_sparse_vectors = λ texts. ok ("sparse" ∷ []);
  zero_sparse = "zero";
  get_bm25_embeddings = λ texts. [];
  insert_chunk_metadata = λ id groups dataset upsert. written id 200;
  get_groups = λ ids. ok tt;
  upsert_point = λ point vector sparse bm25. ok tt;
  revert = λ id. ok tt;
  failed_embedding = λ e. "failed";
}

abbrev payload : UploadIngestionMessage
payload = record {
  id = 100;
  qdrant_point_id = 101;
  chunk = record {
    chunk_html = some "<p>text</p>";
    tag_set = none;
    tracking_id = none;
    upsert_by_tracking_id = none;
    group_ids = none;
    group_tracking_ids = none;
    time_stamp = none;
    split_avg = none;
    convert_html_to_text = none;
    fulltext_boost = none;
    semantic_boost = none;
    semantic_content = none;
    rest = "{}";
  };
  dataset_id = 7;
  upsert_by_tracking_id = false;
}

abbrev text : EmbeddingText
text = record { content = "text"; embedding_content = "text"; fulltext_boost = none }

stored_test :
    upload_chunk services payload text [] ≡ (returned (ok 100), stored 200 ∷ inserted 100 ∷ [])
unfolding upload_chunk vectors_of embedding_vector dense_vector splade_vector bm25_vector
    insert_and_store store_point take_back
stored_test = refl

-- The model server for sparse vectors sends none: the worker panics.
panicked_test :
    upload_chunk (record services { get_sparse_vectors = λ texts. ok [] }) payload text []
    ≡ (panicked, [])
unfolding upload_chunk vectors_of embedding_vector dense_vector splade_vector bm25_vector
    insert_and_store store_point take_back
panicked_test = refl

-- The vector store fails: the row of a chunk that does not upsert stays without a point.
left_test :
    upload_chunk
      (record services { upsert_point = λ point vector sparse bm25. err (bad_request "down") })
      payload
      text
      []
    ≡ (returned (err (bad_request "down")), inserted 100 ∷ [])
unfolding upload_chunk vectors_of embedding_vector dense_vector splade_vector bm25_vector
    insert_and_store store_point take_back
left_test = refl

-- The insert fails at the tags: the row is left.
half_written_test :
    upload_chunk
      (record services {
        insert_chunk_metadata = λ id groups dataset upsert. half_written id (bad_request "tags");
      })
      payload
      text
      []
    ≡ (returned (err (bad_request "tags")), inserted 100 ∷ [])
unfolding upload_chunk vectors_of embedding_vector dense_vector splade_vector bm25_vector
    insert_and_store store_point take_back
half_written_test = refl
