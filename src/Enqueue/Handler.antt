-- ===== src/Enqueue/Handler.antt =====
-- create_chunk of server/src/handlers/chunk_handler.rs: the handler that puts chunks into the
-- ingestion queue.
use trieve.Prelude.{
  ℕ, ◌+◌, ◌-◌, ◌%◌, ◌^◌, String, str_eq, Bool, false, Option, none, some, List, [], ◌∷◌, ◌++◌, map,
  ltb, not, retain, is_empty, unwrap_or, length, if◌then◌else◌, ℤ, pos, negsuc,
}
use trieve.Errors.{bad_request, payload_too_large, Result, ok, err, ◌>>=◌}
use trieve.Models.{Uuid, ChunkReqPayload, UploadIngestionMessage, BulkUploadIngestionMessage}
use trieve.Redis.{Call, applied, reply}
use trieve.Enqueue.{ChunkMetadata, Services, non_empty, create_chunk_metadata}

pub data CreateChunkReqPayload : Type 0 where
  single : ChunkReqPayload → CreateChunkReqPayload
  batch : List ChunkReqPayload → CreateChunkReqPayload

pub data Response : Type 0 where
  upgrade_required : Response
  queued_single : ChunkMetadata → ℕ → Response
  queued_batch : List ChunkMetadata → ℕ → Response

-- The plan of the organization, the environment, and how the calls of a request end.
pub record Env : Type 0 where
  -- `std::env::var("UNLIMITED")`
  pub unlimited : Option String
  pub row_count : Result ℕ
  -- `chunk_count` of the plan, an `i32`
  pub plan_chunk_count : Option ℤ
  pub to_string : BulkUploadIngestionMessage → Option String
  pub conn : Call
  pub lpush : Call
  pub lpush_upsert : Call

abbrev pub chunks_of : CreateChunkReqPayload → List ChunkReqPayload
chunks_of (single chunk) = chunk ∷ []
chunks_of (batch chunks) = chunks

-- `as usize` of an `i32`
abbrev pub as_usize : ℤ → ℕ
as_usize (pos n) = n
as_usize (negsuc n) = 2 ^ 64 - 1 - n

-- `StripePlan::default().chunk_count`
abbrev pub default_chunk_count : Option String → ℤ
default_chunk_count unlimited =
    if str_eq (unwrap_or unlimited "false") "true" then pos (2 ^ 31 - 1) else pos 1000

-- Whether the plan has no room for `count` more chunks.
unfoldable pub over_plan : Env → ℕ → Result Bool
over_plan env count =
    if str_eq (unwrap_or env.unlimited "false") "false"
    then (do
      chunk_count ← env.row_count
      ok (
          ltb (as_usize (unwrap_or env.plan_chunk_count (default_chunk_count env.unlimited)))
            ((chunk_count + count) % 2 ^ 64)))
    else ok false

abbrev pub is_upsert : ChunkReqPayload → Bool
is_upsert chunk = unwrap_or chunk.upsert_by_tracking_id false

abbrev pub normalize : ChunkReqPayload → ChunkReqPayload
normalize chunk = record chunk { tracking_id = non_empty chunk.tracking_id }

-- One of the two LPUSHs: nothing for an empty batch. The position in the queue, and the queue.
unfoldable pub enqueue :
    Env
    → Call
    → Uuid
    → List UploadIngestionMessage × List ChunkMetadata
    → ℕ
    → List String
    → Result ℕ × List String
enqueue env call dataset (messages, metadatas) pos_in_queue queue =
    if is_empty metadatas
    then (ok pos_in_queue, queue)
    else elim (env.to_string
        (record { attempt_number = 0; dataset_id = dataset; ingestion_messages = messages })) [
          | none ↦ (err (bad_request "Failed to Serialize BulkUploadMessage"), queue)
          | some text ↦
              ((reply call >>= λ _. ok (length queue + 1)), applied call queue (text ∷ queue))
        ]

-- `chunk_metadatas.get(0).ok_or(..)` for a single chunk.
abbrev pub response : CreateChunkReqPayload → List ChunkMetadata → ℕ → Result Response
response (single chunk) [] pos_in_queue = err (
    bad_request
      "Failed to queue a single chunk due to deriving 0 ingestion_messages from the request data")
response (single chunk) (m ∷ ms) pos_in_queue = ok (queued_single m pos_in_queue)
response (batch chunks) ms pos_in_queue = ok (queued_batch ms pos_in_queue)

-- `result?`, where the queue stays as it is.
abbrev pub try :
    {A B : Type 0} → Result A → List String → (A → Result B × List String) → Result B × List String
try (ok a) queue rest = rest a
try (err e) queue rest = (err e, queue)

module _ (services : Services) (dataset : Uuid) (env : Env) where
  -- From the two batches on.
  unfoldable pub push_batches :
      CreateChunkReqPayload
      → List UploadIngestionMessage × List ChunkMetadata
      → List UploadIngestionMessage × List ChunkMetadata
      → List String
      → Result Response × List String
  push_batches payload non_upsert upsert queue = try (reply env.conn) queue (λ _.
      (let (pushed, queue1) = enqueue env env.lpush dataset non_upsert 0 queue in
        try pushed queue1 (λ pos_in_queue.
          (let (pushed_upsert, queue2) =
              enqueue env env.lpush_upsert dataset upsert pos_in_queue queue1 in
            try pushed_upsert queue2
              (λ pos_upsert. (response payload (non_upsert.1 ++ upsert.1) pos_upsert, queue2))))))

  -- `create_chunk` for a request that the plan has room for.
  unfoldable pub queue_chunks : CreateChunkReqPayload → List String → Result Response × List String
  queue_chunks payload queue =
      let chunks = map normalize (chunks_of payload) in
      let upserts = retain is_upsert chunks in
      let others = retain (λ c. not (is_upsert c)) chunks in
      if ltb 120 (length (chunks_of payload))
      then (
        err (
            payload_too_large
              "Too many chunks provided in bulk. The limit is 120 chunks per bulk upload"),
        queue,
      )
      else try (create_chunk_metadata services dataset 0 others) queue (λ non_upsert.
        try (create_chunk_metadata services dataset (length others) upserts) queue
          (λ upsert. push_batches payload non_upsert upsert queue))

  -- The response, and the ingestion queue after it.
  unfoldable pub create_chunk : CreateChunkReqPayload → List String → Result Response × List String
  create_chunk payload queue =
      try (over_plan env (length (chunks_of payload))) queue
        (λ over. if over then (ok upgrade_required, queue) else queue_chunks payload queue)
