-- ===== src/Worker/Delete.antt =====
-- server/src/bin/delete-worker.rs: the worker that empties and deletes datasets, and deletes an
-- organization once the last of its datasets is gone.
pub mod Examples
pub mod Accounts
pub mod Failures
pub mod Organizations
use trieve.Prelude.{
  ℕ, ◌+◌, ◌%◌, ◌^◌, String, Bool, true, false, Option, none, some, List, [], ◌∷◌, ◌==◌,
  if◌then◌else◌, any, retain, is_empty, not, ◌&&◌,
}
use trieve.Errors.{ServiceError, internal_server_error, display, Result, ok, err}
use trieve.Redis.{Call, done, applied, lrem_processing}
use trieve.Models.{Uuid, WorkerEvent, dataset_delete_failed}
use trieve.Worker.{
  Codec, World, Exec, ◌>>=◌, ◌>>◌, return, raise, Outcomes, reserialize, connect, lrem, lpush, bury,
  send, Pop, fetch, Next, go_on, shut_down, panicked,
}
use Prim.Native.String.{◌++◌ as str_append}

pub record DeleteMessage : Type 0 where
  pub dataset_id : Uuid
  pub attempt_number : ℕ
  pub deleted_at : ℕ
  pub empty_dataset : Bool

-- The columns of a dataset that the worker reads.
pub record Dataset : Type 0 where
  pub organization_id : Uuid
  pub server_configuration : String

-- `debug` is the derived `Debug` text of an error.
module _ (codec : Codec DeleteMessage) (debug : ServiceError → String) where
  unfoldable pub readd_error_to_queue : Outcomes → DeleteMessage → ServiceError → Exec (Unit {0})
  readd_error_to_queue calls payload error = do
    old_payload_message ← reserialize codec payload
    let attempt_number = (payload.attempt_number + 1) % 2 ^ 64
    connect calls.conn
    lrem calls.lrem old_payload_message
    if attempt_number == 3
        then (do
          connect calls.conn_again
          bury calls.lpush old_payload_message
          send (record {
            dataset_id = payload.dataset_id;
            event_type = dataset_delete_failed (display error);
          })
          raise (
              internal_server_error
                (str_append "Failed to create new qdrant point: " (debug error))))
        else (do
          new_payload_message ←
              reserialize codec (record payload { attempt_number = attempt_number })
          connect calls.conn_again
          lpush calls.lpush new_payload_message)

-- The writes that the worker asks the database for.
pub data Write : Type 0 where
  clear_dataset delete_dataset : Uuid → ℕ → Write
  delete_organization : Uuid → Write

pub record State : Type 0 where
  pub world : World
  -- the Redis set `deleted_organizations`
  pub deleted_organizations : List Uuid
  -- the writes that succeeded, newest first
  pub writes : List Write

-- What the world outside answers during one pass of the loop.
pub record Env : Type 0 where
  pub should_terminate : Bool
  pub pop : Pop
  pub get_deleted_dataset : Uuid → Result Dataset
  pub clear : Uuid → ℕ → String → Result (Unit {0})
  pub delete : Uuid → ℕ → String → Result Dataset
  pub retry : Outcomes
  pub lrem : Call
  -- whether SISMEMBER was answered
  pub sismember : Bool
  pub soft_deleted_datasets : Uuid → Result (List Uuid)
  pub delete_organization_query : Uuid → Result (Unit {0})
  pub srem : Call

abbrev pub contains : List Uuid → Uuid → Bool
contains ids id = any (λ x. x == id) ids

module _ (codec : Codec DeleteMessage) (debug : ServiceError → String) (env : Env) where
  -- `let _ = readd_error_to_queue(..)`: the result is dropped.
  readd : DeleteMessage → ServiceError → State → State
  readd message error s = record s {
    world = (readd_error_to_queue codec debug env.retry message error s.world).1;
  }

  finish : String → State → State
  finish text s = record s {
    world = record s.world { lists = lrem_processing env.lrem text s.world.lists };
  }

  wrote : Write → State → State
  wrote w s = record s { writes = w ∷ s.writes }

  -- After a dataset is gone: its organization, if it waits for deletion and has no dataset left.
  pub delete_empty_organization : Uuid → State → State
  delete_empty_organization org s =
      if env.sismember && contains s.deleted_organizations org
      then (elim (env.soft_deleted_datasets org) [
        | err e ↦ s
        | ok datasets ↦
            if is_empty datasets
            then (elim (env.delete_organization_query org) [
              | err e ↦ s
              | ok _ ↦
                  (let s' = wrote (delete_organization org) s in
                    record s' {
                      deleted_organizations =
                          applied env.srem s.deleted_organizations
                            (retain (λ x. not (x == org)) s.deleted_organizations);
                    })
            ])
            else s
      ])
      else s

  pub process : String → DeleteMessage → Dataset → State → State
  process text message dataset s =
      let id = message.dataset_id in
      let config = dataset.server_configuration in
      if message.empty_dataset
      then (elim (env.clear id message.deleted_at config) [
        | ok _ ↦ finish text (wrote (clear_dataset id message.deleted_at) s)
        | err e ↦ readd message e s
      ])
      else (elim (env.delete id message.deleted_at config) [
        | ok deleted ↦
            delete_empty_organization deleted.organization_id
              (finish text (wrote (delete_dataset id message.deleted_at) s))
        | err e ↦ readd message e s
      ])

  pub handle : String → State → Next × State
  handle text s = elim (codec.from_str text) [
    | none ↦ (panicked, s)
    | some message ↦ elim (env.get_deleted_dataset message.dataset_id) [
      | err e ↦ (go_on, readd message e s)
      | ok dataset ↦ (go_on, process text message dataset s)
    ]
  ]

  -- One pass of the loop.
  pub step : State → Next × State
  step s =
      if env.should_terminate
      then (shut_down, s)
      else (let (payload, w) = fetch env.pop s.world in
          let s' = record s { world = w } in
          elim payload [ none ↦ (go_on, s') | some text ↦ handle text s' ])
