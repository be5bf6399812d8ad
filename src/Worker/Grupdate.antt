-- ===== src/Worker/Grupdate.antt =====
-- server/src/bin/grupdate-worker.rs: the worker that carries a group's new tags over to its chunks.
pub mod Examples
pub mod Accounts
pub mod Failures
use trieve.Prelude.{
  ℕ, ◌+◌, ◌%◌, ◌^◌, String, Bool, Option, none, some, List, ◌∷◌, ◌==◌, if◌then◌else◌,
}
use trieve.Errors.{ServiceError, internal_server_error, display, Result, ok, err}
use trieve.Redis.{Call, lrem_processing}
use trieve.Models.{Uuid, group_chunks_updated, group_chunks_action_failed}
use trieve.Worker.{
  Codec, World, Exec, ◌>>=◌, ◌>>◌, raise, Outcomes, reserialize, connect, lrem, lpush, bury, send,
  Pop, fetch, Next, go_on, shut_down,
}
use Prim.Native.String.{◌++◌ as str_append}

-- `rest` is the text of the fields that are only passed on.
pub record ChunkGroup : Type 0 where
  pub id : Uuid
  pub dataset_id : Uuid
  pub tag_set : Option (List (Option String))
  pub rest : String

pub record GroupUpdateMessage : Type 0 where
  pub dataset_id : Uuid
  pub group : ChunkGroup
  pub prev_group : ChunkGroup
  pub attempt_number : ℕ

module _ (codec : Codec GroupUpdateMessage) (debug : ServiceError → String) where
  pub readd_group_error_to_queue : Outcomes → GroupUpdateMessage → ServiceError → Exec (Unit {0})
  readd_group_error_to_queue calls payload error = do
    old_payload_message ← reserialize codec payload
    let attempt_number = (payload.attempt_number + 1) % 2 ^ 64
    connect calls.conn
    lrem calls.lrem old_payload_message
    if attempt_number == 3
        then (do
          send (record {
            dataset_id = payload.group.dataset_id;
            event_type = group_chunks_action_failed payload.group.id (display error);
          })
          connect calls.conn_again
          bury calls.lpush old_payload_message
          raise (
              internal_server_error
                (str_append "Failed to update grouped chunks 3 times " (debug error))))
        else (do
          new_payload_message ←
              reserialize codec (record payload { attempt_number = attempt_number })
          connect calls.conn_again
          lpush calls.lpush new_payload_message)

-- What the world outside answers during one pass of the loop: the dataset's configuration is passed
-- on as text.
pub record Env : Type 0 where
  pub should_terminate : Bool
  pub pop : Pop
  pub get_dataset_by_id : Uuid → Result String
  pub update_grouped_chunks : ChunkGroup → ChunkGroup → String → Result (Unit {0})
  pub retry : Outcomes
  pub lrem : Call

module _ (codec : Codec GroupUpdateMessage) (debug : ServiceError → String) (env : Env) where
  pub process : String → GroupUpdateMessage → World → World
  process text message w = elim (env.get_dataset_by_id message.dataset_id) [
    | err e ↦ (readd_group_error_to_queue codec debug env.retry message e w).1
    | ok config ↦ elim (env.update_grouped_chunks message.prev_group message.group config) [
      | ok _ ↦ record w {
        events =
            record {
              dataset_id = message.group.dataset_id;
              event_type = group_chunks_updated message.group.id;
            }
            ∷ w.events;
        lists = lrem_processing env.lrem text w.lists;
      }
      | err e ↦ (readd_group_error_to_queue codec debug env.retry message e w).1
    ]
  ]

  pub handle : String → World → Next × World
  handle text w = elim (codec.from_str text) [
    | none ↦ (go_on, w)
    | some message ↦ (go_on, process text message w)
  ]

  -- One pass of the loop.
  pub step : World → Next × World
  step w =
      if env.should_terminate
      then (shut_down, w)
      else (let (payload, w') = fetch env.pop w in
          elim payload [ none ↦ (go_on, w') | some text ↦ handle text w' ])
