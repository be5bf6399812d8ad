-- ===== src/Worker/Ingestion/Update/Examples.antt =====
-- Runs of update_chunk of server/src/bin/ingestion-worker.rs.
use trieve.Prelude.{◌≡◌, refl, String, true, false, none, some, [], ◌∷◌}
use trieve.Errors.{ok, err, bad_request, display}
use trieve.Models.{trieve_uuid}
use trieve.Worker.Ingestion.{UpdateIngestionMessage}
use trieve.Worker.Ingestion.Update.{
  updated, half_written, Services, row, point, embedding_vector, owned_groups, chunk_group_ids,
  prepare, write_both, update_chunk,
}

abbrev services : Services String String
services = record {
  html_to_text = λ html. "text";
  semantic_enabled = true;
  fulltext_enabled = true;
  bm25_enabled = false;
  bm25_active = none;
  get_dense_vector = λ text boost. ok "dense";
  get_sparse_vectors = λ texts. err (bad_request "down");
  zero_sparse = "zero";
  get_bm25_embeddings = λ texts. [];
  dataset_owns_group = λ id dataset. ok 3;
  update_chunk_metadata = λ groups. updated;
  update_qdrant_point = λ groups. ok tt;
}

abbrev change : UpdateIngestionMessage
change = record {
  chunk_metadata_id = 4;
  chunk_html = some "<p>new</p>";
  chunk = "{}";
  dataset_id = 7;
  group_ids = some (trieve_uuid 3 ∷ []);
  convert_html_to_text = none;
  fulltext_boost = none;
  semantic_boost = none;
}

written_test :
    update_chunk services change []
    ≡ (ok tt, point 4 (some "dense") (some (3 ∷ [])) 7 "zero" none ∷ row 4 (some (3 ∷ [])) 7 ∷ [])
unfolding update_chunk prepare embedding_vector chunk_group_ids owned_groups write_both
written_test = refl

-- The vector store fails: the row is written all the same.
row_only_test :
    update_chunk
      (record services { update_qdrant_point = λ groups. err (bad_request "down") })
      change
      []
    ≡ (err (bad_request (display (bad_request "down"))), row 4 (some (3 ∷ [])) 7 ∷ [])
unfolding update_chunk prepare embedding_vector chunk_group_ids owned_groups write_both
row_only_test = refl

-- The update of the row fails at the bookmarks: the row is written all the same.
half_written_test :
    update_chunk
      (record services { update_chunk_metadata = λ groups. half_written (bad_request "groups") })
      change
      []
    ≡ (err (bad_request "groups"), row 4 (some (3 ∷ [])) 7 ∷ [])
unfolding update_chunk prepare embedding_vector chunk_group_ids owned_groups write_both
half_written_test = refl
