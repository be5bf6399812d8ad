-- ===== src/Models.antt =====
-- server/src/data/models.rs: what the workers and the middleware share of the data model.
use trieve.Prelude.{ℕ, String, Bool, Option, List}

-- A UUID, as the 128-bit number that it is.
abbrev pub Uuid : Type 0
Uuid = ℕ

pub data UnifiedId : Type 0 where
  trieve_uuid : Uuid → UnifiedId
  tracking_id : String → UnifiedId

-- `EventType`, as far as the workers send it.
pub data EventType : Type 0 where
  chunks_uploaded : List Uuid → EventType
  chunk_updated : Uuid → EventType
  bulk_chunk_upload_failed : List Uuid → String → EventType
  file_upload_failed : Uuid → String → EventType
  group_chunks_updated : Uuid → EventType
  group_chunks_action_failed : Uuid → String → EventType
  dataset_delete_failed : String → EventType

pub record WorkerEvent : Type 0 where
  pub dataset_id : Uuid
  pub event_type : EventType

-- A boost of a phrase. The factor is a float, which the workers pass on as its text.
pub record Boost : Type 0 where
  pub phrase : String
  pub factor : String

-- `ChunkReqPayload` of server/src/handlers/chunk_handler.rs. `rest` is the text of the fields that
-- are only passed on: link, metadata, weight, location, image_urls, num_value.
pub record ChunkReqPayload : Type 0 where
  pub chunk_html : Option String
  pub tag_set : Option (List String)
  pub tracking_id : Option String
  pub upsert_by_tracking_id : Option Bool
  pub group_ids : Option (List Uuid)
  pub group_tracking_ids : Option (List String)
  pub time_stamp : Option String
  pub split_avg : Option Bool
  pub convert_html_to_text : Option Bool
  pub fulltext_boost : Option Boost
  pub semantic_boost : Option Boost
  pub semantic_content : Option String
  pub rest : String

pub record UploadIngestionMessage : Type 0 where
  pub id : Uuid
  pub qdrant_point_id : Uuid
  pub chunk : ChunkReqPayload
  pub dataset_id : Uuid
  pub upsert_by_tracking_id : Bool

pub record BulkUploadIngestionMessage : Type 0 where
  pub attempt_number : ℕ
  pub dataset_id : Uuid
  pub ingestion_messages : List UploadIngestionMessage
