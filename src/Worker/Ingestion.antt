-- ===== src/Worker/Ingestion.antt =====
-- server/src/bin/ingestion-worker.rs: the loop that takes chunks to upload or to update from the
-- queue.
pub mod Examples
pub mod Accounts
pub mod Failures
pub mod Update
pub mod Upload
pub mod Bulk
use trieve.Prelude.{
  ℕ, ◌+◌, ◌%◌, ◌^◌, String, Bool, Option, none, some, List, ◌∷◌, map, ◌==◌, if◌then◌else◌, length,
}
use trieve.Errors.{ServiceError, internal_server_error, duplicate_tracking_id, Result, ok, err}
use trieve.Redis.{Call, lrem_processing}
use trieve.Models.{
  UnifiedId, Boost, Uuid, EventType, chunks_uploaded, chunk_updated, bulk_chunk_upload_failed,
  BulkUploadIngestionMessage,
}
use trieve.Worker.{
  Codec, World, Exec, ◌>>=◌, ◌>>◌, return, raise, Outcomes, reserialize, connect, lrem, lpush, bury,
  send, Pop, fetch, Next, go_on, shut_down,
}

-- `chunk` is the text of the fields of `chunk_metadata` that are only passed on.
pub record UpdateIngestionMessage : Type 0 where
  pub chunk_metadata_id : Uuid
  pub chunk_html : Option String
  pub chunk : String
  pub dataset_id : Uuid
  pub group_ids : Option (List UnifiedId)
  pub convert_html_to_text : Option Bool
  pub fulltext_boost : Option Boost
  pub semantic_boost : Option Boost

pub data IngestionMessage : Type 0 where
  bulk_upload : BulkUploadIngestionMessage → IngestionMessage
  update : UpdateIngestionMessage → IngestionMessage

-- The codecs of the two message types; the enum is untagged, so they are tried in this order.
pub record Codecs : Type 0 where
  pub bulk : Codec BulkUploadIngestionMessage
  pub single : Codec UpdateIngestionMessage

pub from_str : Codecs → String → Option IngestionMessage
from_str codecs text = elim (codecs.bulk.from_str text) [
  | some m ↦ some (bulk_upload m)
  | none ↦ elim (codecs.single.from_str text) [ some m ↦ some (update m) | none ↦ none ]
]

-- The texts of the errors, which the events and the returned error carry.
pub record Texts : Type 0 where
  pub debug : ServiceError → String
  -- "Failed to upload {count} chunks: {error:?}"
  pub failed_to_upload : ℕ → ServiceError → String
  -- "Failed to create new qdrant point: {error:?}"
  pub failed_to_create : ServiceError → String

module _ (codecs : Codecs) (texts : Texts) where
  pub readd_bulk : Outcomes → BulkUploadIngestionMessage → ServiceError → Exec (Unit {0})
  readd_bulk calls payload error = do
    old_payload_message ← reserialize codecs.bulk payload
    connect calls.conn
    lrem calls.lrem old_payload_message
    let attempt_number = (payload.attempt_number + 1) % 2 ^ 64
    if attempt_number == 10
        then (do
          send (record {
            dataset_id = payload.dataset_id;
            event_type =
                bulk_chunk_upload_failed (map (λ m. m.id) payload.ingestion_messages)
                  (texts.failed_to_upload (length payload.ingestion_messages) error);
          })
          connect calls.conn_again
          bury calls.lpush old_payload_message
          raise (internal_server_error (texts.failed_to_create error)))
        else (do
          new_payload_message ←
              reserialize codecs.bulk (record payload { attempt_number = attempt_number })
          connect calls.conn_again
          lpush calls.lpush new_payload_message)

  pub readd_error_to_queue : Outcomes → IngestionMessage → ServiceError → Exec (Unit {0})
  readd_error_to_queue calls message (duplicate_tracking_id id) = return tt
  readd_error_to_queue calls (bulk_upload payload) error = readd_bulk calls payload error
  readd_error_to_queue calls (update payload) error = return tt

-- What the world outside answers during one pass of the loop. The dataset's configuration is passed
-- on as text.
pub record Env : Type 0 where
  pub should_terminate : Bool
  pub pop : Pop
  pub get_dataset_by_id : Uuid → Result String
  pub bulk_upload_chunks : BulkUploadIngestionMessage → String → Result (List Uuid)
  pub update_chunk : UpdateIngestionMessage → String → Result (Unit {0})
  pub retry : Outcomes
  pub lrem : Call

abbrev pub message_dataset_id : IngestionMessage → Uuid
message_dataset_id (bulk_upload m) = m.dataset_id
message_dataset_id (update m) = m.dataset_id

module _ (codecs : Codecs) (texts : Texts) (env : Env) where
  complete : String → Uuid → EventType → World → World
  complete text dataset_id event w = record w {
    events = record { dataset_id = dataset_id; event_type = event } ∷ w.events;
    lists = lrem_processing env.lrem text w.lists;
  }

  readd : IngestionMessage → ServiceError → World → World
  readd message e w = (readd_error_to_queue codecs texts env.retry message e w).1

  pub process : String → IngestionMessage → String → World → World
  process text (bulk_upload payload) config w = elim (env.bulk_upload_chunks payload config) [
    | ok chunk_ids ↦ complete text payload.dataset_id (chunks_uploaded chunk_ids) w
    | err e ↦ readd (bulk_upload payload) e w
  ]
  process text (update payload) config w = elim (env.update_chunk payload config) [
    | ok _ ↦ complete text payload.dataset_id (chunk_updated payload.chunk_metadata_id) w
    | err e ↦ readd (update payload) e w
  ]

  pub handle : String → World → Next × World
  handle text w = elim (from_str codecs text) [
    | none ↦ (go_on, w)
    | some message ↦ elim (env.get_dataset_by_id (message_dataset_id message)) [
      | err e ↦ (go_on, readd message e w)
      | ok config ↦ (go_on, process text message config w)
    ]
  ]

  -- One pass of the loop.
  pub step : World → Next × World
  step w =
      if env.should_terminate
      then (shut_down, w)
      else (let (payload, w') = fetch env.pop w in
          elim payload [ none ↦ (go_on, w') | some text ↦ handle text w' ])
