-- ===== src/Worker/File.antt =====
-- server/src/bin/file-worker.rs: the worker that turns an uploaded file into text and queues its
-- chunks.
pub mod Examples
pub mod Queued
pub mod Failures
use trieve.Prelude.{
  ℕ, ◌+◌, ◌/◌, ◌%◌, ◌^◌, String, Bool, true, Option, none, some, List, ◌==◌, if◌then◌else◌,
  unwrap_or, not, length, str_eq,
}
use trieve.Errors.{
  ServiceError, internal_server_error, bad_request, display, Result, ok, err, ok_or,
}
use trieve.Errors.{◌>>=◌ as and_then}
use trieve.Redis.{Call, lrem_processing}
use trieve.Models.{Uuid, file_upload_failed}
use trieve.Worker.{
  Codec, World, Exec, ◌>>=◌, ◌>>◌, raise, Outcomes, reserialize, connect, lrem, lpush, bury, send,
  Pop, fetch, Next, go_on, shut_down, panicked,
}
use Prim.Native.String.{◌++◌ as str_append}

-- `rest` is the text of the fields that are only passed on.
pub record UploadFileReqPayload : Type 0 where
  pub create_chunks : Option Bool
  pub rest : String

pub record FileWorkerMessage : Type 0 where
  pub file_id : Uuid
  pub dataset_id : Uuid
  pub upload_file_data : UploadFileReqPayload
  pub attempt_number : ℕ

-- `attempt_number` is a `u8`.
module _ (codec : Codec FileWorkerMessage) (debug : ServiceError → String) where
  pub readd_error_to_queue : Outcomes → FileWorkerMessage → ServiceError → Exec (Unit {0})
  readd_error_to_queue calls payload error = do
    old_payload_message ← reserialize codec payload
    let attempt_number = (payload.attempt_number + 1) % 2 ^ 8
    connect calls.conn
    lrem calls.lrem old_payload_message
    if attempt_number == 3
        then (do
          send (record {
            dataset_id = payload.dataset_id;
            event_type = file_upload_failed payload.file_id (display error);
          })
          connect calls.conn_again
          bury calls.lpush old_payload_message
          raise (
              internal_server_error
                (str_append "Failed to create new qdrant point: " (debug error))))
        else (do
          new_payload_message ←
              reserialize codec (record payload { attempt_number = attempt_number })
          connect calls.conn_again
          lpush calls.lpush new_payload_message)

-- What the world outside answers during one pass of the loop. An `Option` is `none` where the call
-- failed; the dataset is passed on as text.
pub record Env : Type 0 where
  pub should_terminate : Bool
  pub pop : Pop
  pub get_aws_bucket : Result (Unit {0})
  pub get_object : Uuid → Option (List ℕ)
  pub tika_url : Option String
  pub tika_send : String → List ℕ → Bool
  pub tika_bytes : List ℕ → Option (List ℕ)
  pub from_utf8_lossy : List ℕ → String
  pub create_file_query : Uuid → ℕ → UploadFileReqPayload → Uuid → Result Uuid
  pub get_dataset_and_organization : Uuid → Result String
  pub create_file_chunks : Uuid → UploadFileReqPayload → String → String → Result (Unit {0})
  pub retry : Outcomes
  pub lrem : Call

-- `(len as f64 / 1024.0 / 1024.0).round()`, exact for every length below 2 ^ 53.
pub file_size_mb : ℕ → ℕ
file_size_mb len = (len + 2 ^ 19) / 2 ^ 20

module _ (env : Env) where
  -- From the text that Tika made of the file.
  store_html : FileWorkerMessage → List ℕ → String → Result (Option Uuid)
  store_html m file_data html_content =
      if str_eq html_content ""
      then err (bad_request "Could not parse file with tika")
      else and_then
          (env.create_file_query m.file_id (file_size_mb (length file_data)) m.upload_file_data
            m.dataset_id)
          (λ created_file.
            if not (unwrap_or m.upload_file_data.create_chunks true)
            then ok none
            else and_then (env.get_dataset_and_organization m.dataset_id) (λ dataset.
              and_then (env.create_file_chunks created_file m.upload_file_data html_content dataset)
                (λ _. ok (some m.file_id))))

  -- `none` is the panic on a missing TIKA_URL.
  pub upload_file : FileWorkerMessage → Option (Result (Option Uuid))
  upload_file m =
      elim (and_then env.get_aws_bucket
        (λ _. ok_or (env.get_object m.file_id) (bad_request "File is not present in s3"))) [
          | err e ↦ some (err e)
          | ok file_data ↦ elim env.tika_url [
            | none ↦ none
            | some url ↦ some (
                if env.tika_send url file_data
                then and_then
                    (ok_or (env.tika_bytes file_data)
                      (bad_request "Could not get tika response bytes"))
                    (λ bytes. store_html m file_data (env.from_utf8_lossy bytes))
                else err (bad_request "Could not send file to tika"))
          ]
        ]

module _ (codec : Codec FileWorkerMessage) (debug : ServiceError → String) (env : Env) where
  pub handle : String → World → Next × World
  handle text w = elim (codec.from_str text) [
    | none ↦ (panicked, w)
    | some message ↦ elim (upload_file env message) [
      | none ↦ (panicked, w)
      | some (ok (some file_id)) ↦
          (go_on, record w { lists = lrem_processing env.lrem text w.lists })
      | some (ok none) ↦ (go_on, w)
      | some (err e) ↦ (go_on, (readd_error_to_queue codec debug env.retry message e w).1)
    ]
  ]

  -- One pass of the loop.
  pub step : World → Next × World
  step w =
      if env.should_terminate
      then (shut_down, w)
      else (let (payload, w') = fetch env.pop w in
          elim payload [ none ↦ (go_on, w') | some text ↦ handle text w' ])
