-- ===== src/Enqueue/Examples.antt =====
-- Requests to create_chunk of server/src/handlers/chunk_handler.rs.
use trieve.Prelude.{◌+◌, ◌≤◌, ◌≡◌, refl, true, false, none, some, List, [], ◌∷◌, length, pos}
use trieve.Errors.{ok}
use trieve.Models.{ChunkReqPayload, UploadIngestionMessage}
use trieve.Redis.{done, failed}
use trieve.Enqueue.{
  ChunkMetadata, Services, parse_time_stamp, all_exist, check_group_ids, all_found,
  ids_from_tracking_ids, message_of, metadata_of, ingest_one, create_chunk_metadata,
}
use trieve.Enqueue.Handler.{
  batch, queued_batch, Env, over_plan, enqueue, push_batches, queue_chunks, create_chunk,
}
use trieve.Enqueue.Metadata.{AllMatch, create_chunk_metadata-AllMatch}
use trieve.Enqueue.Limits.{HasRoom, create_chunk-answers}

abbrev services : Services
services = record {
  fresh = λ n. (100 + n, 200 + n);
  now = λ id. (5, 6);
  parse_time = λ text. some text;
  uuid_to_string = λ id. "id";
  check_group_ids_exist = λ ids dataset. ok ids;
  get_group_ids_from_tracking_ids = λ texts dataset. ok ((1, some "one") ∷ []);
}

abbrev plain : ChunkReqPayload
plain = record {
  chunk_html = some "<p>text</p>";
  tag_set = none;
  tracking_id = some "";
  upsert_by_tracking_id = none;
  group_ids = some (1 ∷ 2 ∷ []);
  group_tracking_ids = some ("one" ∷ []);
  time_stamp = none;
  split_avg = none;
  convert_html_to_text = none;
  fulltext_boost = none;
  semantic_boost = none;
  semantic_content = none;
  rest = "{}";
}

abbrev upsert : ChunkReqPayload
upsert = record plain { tracking_id = some "two"; upsert_by_tracking_id = some true }

abbrev env : Env
env = record {
  unlimited = none;
  row_count = ok 5;
  plan_chunk_count = some (pos 7);
  to_string = λ m. some "batch";
  conn = done;
  lpush = done;
  lpush_upsert = done;
}

abbrev messages : List UploadIngestionMessage
messages = message_of services 7 0 (1 ∷ 2 ∷ []) plain ∷ []

abbrev metadatas : List ChunkMetadata
metadatas = metadata_of services 7 0 none plain ∷ []

accepted : create_chunk_metadata services 7 0 (plain ∷ []) ≡ ok (messages, metadatas)
unfolding create_chunk_metadata ingest_one parse_time_stamp check_group_ids all_exist
    ids_from_tracking_ids all_found
accepted = refl

create_chunk_metadata-AllMatch_example : AllMatch services 7 (plain ∷ []) messages metadatas
create_chunk_metadata-AllMatch_example =
    create_chunk_metadata-AllMatch services 7 0 (plain ∷ []) messages metadatas accepted

abbrev answers : List ChunkMetadata
answers = metadata_of services 7 0 none plain ∷ metadata_of services 7 1 none upsert ∷ []

queued :
    (create_chunk services 7 env (batch (upsert ∷ plain ∷ [])) []).0 ≡ ok (queued_batch answers 2)
unfolding create_chunk over_plan queue_chunks push_batches enqueue create_chunk_metadata ingest_one
    parse_time_stamp check_group_ids all_exist ids_from_tracking_ids all_found
queued = refl

create_chunk-answers_example :
    (length answers ≡ length (upsert ∷ plain ∷ []))
    × (length (upsert ∷ plain ∷ []) ≤ 120)
    × HasRoom env (length (upsert ∷ plain ∷ []))
create_chunk-answers_example =
    create_chunk-answers services 7 env (upsert ∷ plain ∷ []) [] answers 2 queued

-- If the second LPUSH fails, the request is answered with an error, and the first batch is queued.
half_queued_test :
    (create_chunk services 7
      (record env { lpush_upsert = failed false "gone" })
      (batch (upsert ∷ plain ∷ []))
      []).1
    ≡ "batch" ∷ []
unfolding create_chunk over_plan queue_chunks push_batches enqueue create_chunk_metadata ingest_one
    parse_time_stamp check_group_ids all_exist ids_from_tracking_ids all_found
half_queued_test = refl
