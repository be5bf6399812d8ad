-- ===== src/Worker/Ingestion/Accounts.antt =====
-- What a pass of the ingestion worker does to its lists.
use trieve.Prelude.{
  ℕ, suc, ◌+◌, ◌%◌, ◌^◌, ◌≡◌, refl, ap, ◌∙◌, String, some, List, [], ◌∷◌, arith, ◌==◌, Bool-cases,
  Option-cases, inl, inr,
}
use trieve.Errors.{ServiceError, duplicate_tracking_id, Result-cases}
use trieve.Redis.{done, lrem_processing, lpush_queue, lpush_dead_letters}
use trieve.Redis.Laws.{size, remove_first_head}
use trieve.Models.{
  Uuid, EventType, WorkerEvent, chunks_uploaded, chunk_updated, BulkUploadIngestionMessage,
}
use trieve.Worker.{World, fetch}
use trieve.Worker.Fetch.{size-fetch, events-fetch, fetch_head}
use trieve.Worker.Retry.{healthy, retried, size-retried}
use trieve.Worker.Ingestion.{
  IngestionMessage, bulk_upload, update, Codecs, from_str, Texts, readd_bulk, readd_error_to_queue,
  Env, message_dataset_id, complete, readd, process, handle, step,
}

abbrev pub next_attempt : BulkUploadIngestionMessage → ℕ
next_attempt m = (m.attempt_number + 1) % 2 ^ 64

abbrev pub again : BulkUploadIngestionMessage → BulkUploadIngestionMessage
again m = record m { attempt_number = next_attempt m }

-- If the text is a message, then the message is written back to this text, and with one more attempt
-- counted it can be written too.
pub record IsFaithful (codecs : Codecs) (text : String) : Type 0 where
  pub canonical :
      (m : BulkUploadIngestionMessage)
      → from_str codecs text ≡ some (bulk_upload m)
      → codecs.bulk.to_string m ≡ some text
  pub print : BulkUploadIngestionMessage → String
  pub prints :
      (m : BulkUploadIngestionMessage)
      → from_str codecs text ≡ some (bulk_upload m)
      → codecs.bulk.to_string (again m) ≡ some (print m)

-- Every Redis call of a pass is answered.
pub record IsHealthy (env : Env) : Type 0 where
  pub retry : env.retry ≡ healthy
  pub remove : env.lrem ≡ done

-- The uploads and updates that were reported as done.
abbrev pub reported : List WorkerEvent → ℕ
reported [] = 0
reported (e ∷ es) = elim e.event_type [
  | chunks_uploaded ids ↦ suc (reported es)
  | chunk_updated id ↦ suc (reported es)
  | _ ↦ reported es
]

-- The messages in the lists, and those that were carried out.
abbrev pub account : World → ℕ
account w = size w.lists + reported w.events

module _ (codecs : Codecs) (texts : Texts) where
  pub lists-readd_bulk :
      (m : BulkUploadIngestionMessage) (e : ServiceError) (w : World) (old new : String)
      → codecs.bulk.to_string m ≡ some old
      → codecs.bulk.to_string (again m) ≡ some new
      → (readd_bulk codecs texts healthy m e w).1.lists
        ≡ retried 10 (next_attempt m) old new w.lists
  unfolding readd_bulk lrem_processing lpush_queue lpush_dead_letters
  lists-readd_bulk m e w old new p q = elim (Bool-cases (next_attempt m == 10)) [
    | inl b ↦ rw (p, b)
    | inr b ↦ rw (p, b, q)
  ]

  reported-readd_bulk :
      (m : BulkUploadIngestionMessage) (e : ServiceError) (w : World) (old new : String)
      → codecs.bulk.to_string m ≡ some old
      → codecs.bulk.to_string (again m) ≡ some new
      → reported (readd_bulk codecs texts healthy m e w).1.events ≡ reported w.events
  unfolding readd_bulk
  reported-readd_bulk m e w old new p q = elim (Bool-cases (next_attempt m == 10)) [
    | inl b ↦ rw (p, b)
    | inr b ↦ rw (p, b, q)
  ]

module _ (codecs : Codecs) (texts : Texts) (env : Env) (healthy_env : IsHealthy env) where
  account-readd_bulk :
      (text : String) (faithful : IsFaithful codecs text) (rest : List String)
      (m : BulkUploadIngestionMessage) (e : ServiceError) (w : World)
      → from_str codecs text ≡ some (bulk_upload m)
      → w.lists.processing ≡ text ∷ rest
      → account (readd_bulk codecs texts env.retry m e w).1 ≡ account w
  account-readd_bulk text faithful rest m e w p h =
      let new = faithful.print m in
      let q = faithful.canonical m p in
      rw (
        healthy_env.retry,
        lists-readd_bulk codecs texts m e w text new q (faithful.prints m p),
        reported-readd_bulk codecs texts m e w text new q (faithful.prints m p),
        size-retried 10 (next_attempt m) text new rest w.lists h,
      )

  account-readd :
      (text : String) (faithful : IsFaithful codecs text) (rest : List String)
      (m : IngestionMessage) (e : ServiceError) (w : World)
      → from_str codecs text ≡ some m
      → w.lists.processing ≡ text ∷ rest
      → account (readd codecs texts env m e w) ≡ account w
  unfolding readd readd_error_to_queue
  account-readd text faithful rest m (duplicate_tracking_id id) w p h = refl
  account-readd text faithful rest (update m) _ w p h = refl
  account-readd text faithful rest (bulk_upload m) e w p h =
      account-readd_bulk text faithful rest m e w p h

  account-complete :
      (text : String) (rest : List String) (id : Uuid) (event : EventType) (w : World)
      → reported (record { dataset_id = id; event_type = event } ∷ w.events)
        ≡ suc (reported w.events)
      → w.lists.processing ≡ text ∷ rest
      → account (complete codecs texts env text id event w) ≡ account w
  unfolding complete lrem_processing
  account-complete text rest id event w n h =
      rw (healthy_env.remove, h, remove_first_head text rest) (omega arith)

  account-process :
      (text : String) (faithful : IsFaithful codecs text) (rest : List String)
      (m : IngestionMessage) (config : String) (w : World)
      → from_str codecs text ≡ some m
      → w.lists.processing ≡ text ∷ rest
      → account (process codecs texts env text m config w) ≡ account w
  unfolding process
  account-process text faithful rest (bulk_upload m) config w p h =
      elim (Result-cases (env.bulk_upload_chunks m config)) [
        | inl (ids, e) ↦
            rw (e, process) (account-complete text rest m.dataset_id (chunks_uploaded ids) w refl h)
        | inr (x, e) ↦ rw (e, process) (account-readd text faithful rest (bulk_upload m) x w p h)
      ]
  account-process text faithful rest (update m) config w p h =
      elim (Result-cases (env.update_chunk m config)) [
        | inl (ids, e) ↦
            rw (e, process)
              (account-complete text rest m.dataset_id (chunk_updated m.chunk_metadata_id) w refl h)
        | inr (x, e) ↦ rw (e, process) (account-readd text faithful rest (update m) x w p h)
      ]

  account-handle :
      (text : String) (faithful : IsFaithful codecs text) (rest : List String) (w : World)
      → w.lists.processing ≡ text ∷ rest
      → account (handle codecs texts env text w).1 ≡ account w
  unfolding handle
  account-handle text faithful rest w h = elim (Option-cases (from_str codecs text)) [
    | inl e ↦ rw (e, handle) refl
    | inr (m, e) ↦ elim (Result-cases (env.get_dataset_by_id (message_dataset_id m))) [
      | inl (d, g) ↦ rw (e, handle, g) (account-process text faithful rest m d w e h)
      | inr (x, g) ↦ rw (e, handle, g) (account-readd text faithful rest m x w e h)
    ]
  ]

  account-fetch : (w : World) → account (fetch env.pop w).1 ≡ account w
  account-fetch w = omega (arith, size-fetch env.pop w, ap reported (events-fetch env.pop w))

  -- While Redis answers, and the text that is taken, where it is an upload, is what the upload is
  -- written as and the upload can be written with one more attempt, no pass of the loop loses or
  -- duplicates a message: with the uploads and updates that were reported as done counted in,
  -- there are as many as before.
  pub account-step_ingestion :
      (w : World)
      → ((text : String) → (fetch env.pop w).0 ≡ some text → IsFaithful codecs text)
      → account (step codecs texts env w).1 ≡ account w
  unfolding step
  account-step_ingestion w faithful = elim (Bool-cases env.should_terminate) [
    | inl t ↦ rw (t, step) refl
    | inr t ↦ elim (Option-cases (fetch env.pop w).0) [
      | inl e ↦ rw (t, step, e) (account-fetch w)
      | inr (text, e) ↦
          rw (t, step, e)
            (account-handle text (faithful text e) w.lists.processing (fetch env.pop w).1
                (fetch_head env.pop w text e)
              ∙ account-fetch w)
    ]
  ]
