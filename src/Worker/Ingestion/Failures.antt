-- ===== src/Worker/Ingestion/Failures.antt =====
-- What becomes of an upload that fails every time, and of the failures that are never retried.
use trieve.Prelude.{
  ℕ, zero, suc, ◌+◌, ◌<◌, ◌≤◌, ◌≡◌, ◌≢◌, ◌⊎◌, refl, ap, ◌∙◌, String, false, none, some, Option,
  List, arith,
}
use trieve.Errors.{ServiceError, duplicate_tracking_id, ok, err}
use trieve.Redis.{brpoplpush, pop_right}
use trieve.Models.{BulkUploadIngestionMessage}
use trieve.Worker.{World, Outcomes, replied, fetch, Next, go_on}
use trieve.Worker.Retry.{healthy, retried, waiting, worked, buried, iterate, iterate-buried}
use trieve.Worker.Ingestion.{
  UpdateIngestionMessage, IngestionMessage, bulk_upload, update, Codecs, from_str, Texts,
  readd_bulk, readd_error_to_queue, Env, message_dataset_id, readd, process, handle, step,
}
use trieve.Worker.Ingestion.Accounts.{next_attempt, lists-readd_bulk}

-- The error that ends the handling of a message, if one does.
abbrev pub failure : Env → IngestionMessage → Option ServiceError
failure env message = elim (env.get_dataset_by_id (message_dataset_id message)) [
  | err e ↦ some e
  | ok config ↦ elim message [
    | bulk_upload m ↦ elim (env.bulk_upload_chunks m config) [ ok _ ↦ none | err e ↦ some e ]
    | update m ↦ elim (env.update_chunk m config) [ ok _ ↦ none | err e ↦ some e ]
  ]
]

abbrev pub after : BulkUploadIngestionMessage → ℕ → BulkUploadIngestionMessage
after m a = record m { attempt_number = a }

-- `print a` is what the message `m` is written as when it counts `a` attempts, and is read back.
pub record Prints (codecs : Codecs) (m : BulkUploadIngestionMessage) (print : ℕ → String)
    : Type 0 where
  pub writes : (a : ℕ) → a ≤ 10 → codecs.bulk.to_string (after m a) ≡ some (print a)
  pub reads : (a : ℕ) → a < 10 → codecs.bulk.from_str (print a) ≡ some (after m a)

-- The worker goes on, Redis answers, and the upload `m` fails with `e`, however often it is tried.
pub record IsFailing (env : Env) (m : BulkUploadIngestionMessage) (e : ServiceError) : Type 0 where
  pub runs : env.should_terminate ≡ false
  pub pops : env.pop ≡ replied
  pub retry : env.retry ≡ healthy
  pub fails : (a : ℕ) → failure env (bulk_upload (after m a)) ≡ some e
  pub new : (id : String) → e ≢ duplicate_tracking_id id

module _ (codecs : Codecs) (texts : Texts) (env : Env) where
  handle-failure :
      (text : String) (m : IngestionMessage) (e : ServiceError) (w : World)
      → from_str codecs text ≡ some m
      → failure env m ≡ some e
      → handle codecs texts env text w ≡ (go_on, readd codecs texts env m e w)
  unfolding handle process
  handle-failure text (bulk_upload m) e w p f = ground arith
  handle-failure text (update m) e w p f = ground arith

  -- After the failure of an update, or one for a tracking id that is taken, nothing is done.
  not-readd :
      (text : String) (m : IngestionMessage) (e : ServiceError) (w : World)
      → from_str codecs text ≡ some m
      → failure env m ≡ some e
      → ((u : UpdateIngestionMessage) × (m ≡ update u))
        ⊎ ((id : String) × (e ≡ duplicate_tracking_id id))
      → handle codecs texts env text w ≡ (go_on, w)
  unfolding readd readd_error_to_queue
  not-readd text (update u) (duplicate_tracking_id id) w p f why =
      handle-failure text (update u) (duplicate_tracking_id id) w p f
  not-readd text (update u) e w p f why = handle-failure text (update u) e w p f
  not-readd text (bulk_upload m) (duplicate_tracking_id id) w p f why =
      handle-failure text (bulk_upload m) (duplicate_tracking_id id) w p f
  not-readd text (bulk_upload m) e w p f why = absurd (ground arith)

  readd_upload :
      (m : BulkUploadIngestionMessage) (e : ServiceError) (w : World)
      → ((id : String) → e ≢ duplicate_tracking_id id)
      → readd codecs texts env (bulk_upload m) e w ≡ (readd_bulk codecs texts env.retry m e w).1
  unfolding readd readd_error_to_queue
  readd_upload m (duplicate_tracking_id id) w new = absurd (new id refl)
  readd_upload m _ w new = refl

  step_handles :
      (text : String) (w w' : World)
      → env.should_terminate ≡ false
      → fetch env.pop w ≡ (some text, w')
      → step codecs texts env w ≡ handle codecs texts env text w'
  unfolding step
  step_handles text w w' runs popped = ground arith

  step-none :
      (w w' : World)
      → env.should_terminate ≡ false
      → fetch env.pop w ≡ (none, w')
      → step codecs texts env w ≡ (go_on, w')
  unfolding step
  step-none w w' runs popped = ground arith

  -- Nothing waits: the pass finds no message.
  step_idle :
      (text : String) (dead : List String) (w : World)
      → env.should_terminate ≡ false
      → env.pop ≡ replied
      → w.lists ≡ worked text dead
      → (step codecs texts env w).1.lists ≡ worked text dead
  step_idle text dead w runs pops h =
      let w' : World = record w { lists = worked text dead; broken_pipe_sleep = 10 } in
      ap (λ (t : Next × World). t.1.lists)
        (step-none w w' runs (rw pops (unfold fetch brpoplpush pop_right in rw h refl)))

  stays :
      (n : ℕ) (text : String) (dead : List String) (w : World)
      → env.should_terminate ≡ false
      → env.pop ≡ replied
      → w.lists ≡ worked text dead
      → (iterate n (λ t. (step codecs texts env t).1) w).lists ≡ worked text dead
  stays zero text dead w runs pops h = h
  stays (suc n) text dead w runs pops h =
      stays n text dead (step codecs texts env w).1 runs pops (step_idle text dead w runs pops h)

  -- A failed update, and a failure for a tracking id that is taken, is not retried: where its message
  -- waits alone and Redis answers, it stands among those in processing after the pass that takes it
  -- and after any number of passes more, and is neither queued again nor among the dead letters.
  pub not_retried :
      (n : ℕ) (text : String) (dead : List String) (m : IngestionMessage) (e : ServiceError)
      (w : World)
      → env.should_terminate ≡ false
      → env.pop ≡ replied
      → from_str codecs text ≡ some m
      → failure env m ≡ some e
      → ((u : UpdateIngestionMessage) × (m ≡ update u))
        ⊎ ((id : String) × (e ≡ duplicate_tracking_id id))
      → w.lists ≡ waiting text dead
      → (iterate (suc n) (λ t. (step codecs texts env t).1) w).lists ≡ worked text dead
  not_retried n text dead m e w runs pops p f why h =
      let w' : World = record w { lists = worked text dead; broken_pipe_sleep = 10 } in
      stays n text dead (step codecs texts env w).1 runs pops (
        ap (λ (t : Next × World). t.1.lists)
          (step_handles text w w' runs (rw pops (unfold fetch brpoplpush pop_right in rw h refl))
            ∙ not-readd text m e w' p f why))

  module _ (m : BulkUploadIngestionMessage) (print : ℕ → String) (prints : Prints codecs m print)
      (e : ServiceError) (failing : IsFailing env m e) where
    reads : (a : ℕ) → a < 10 → from_str codecs (print a) ≡ some (bulk_upload (after m a))
    unfolding from_str
    reads a lt = rw (prints.reads a lt, from_str) refl

    retries :
        (a : ℕ) (dead : List String) (w : World)
        → a < 10
        → w.lists ≡ waiting (print a) dead
        → (step codecs texts env w).1.lists
          ≡ retried 10 (suc a) (print a) (print (suc a)) (worked (print a) dead)
    retries a dead w lt h =
        let text = print a in
        let w' : World = record w { lists = worked text dead; broken_pipe_sleep = 10 } in
        let new = print (suc a) in
        let attempt : next_attempt (after m a) ≡ suc a = omega arith in
        ap (λ (t : Next × World). t.1.lists)
          (step_handles text w w' failing.runs
              (rw failing.pops (unfold fetch brpoplpush pop_right in rw h refl))
            ∙ handle-failure text (bulk_upload (after m a)) e w' (reads a lt) (failing.fails a))
        ∙ ap (λ (t : World). t.lists) (readd_upload (after m a) e w' failing.new)
        ∙ ap (λ (o : Outcomes). (readd_bulk codecs texts o (after m a) e w').1.lists) failing.retry
        ∙ lists-readd_bulk codecs texts (after m a) e w' text new (prints.writes a (omega arith)) (
            ap (λ (k : ℕ). codecs.bulk.to_string (after m k)) attempt
            ∙ prints.writes (suc a) (omega arith))
        ∙ ap (λ (k : ℕ). retried 10 k text new w'.lists) attempt

    -- An upload whose message is read back as it is written, and that waits alone after `a`
    -- attempts and fails at every pass with another error than a duplicate tracking id, while
    -- Redis answers, is taken up 10 - a times, and then it stands among the dead letters, with
    -- nine attempts counted, and nowhere else.
    pub upload_failing-buried :
        (n a : ℕ) (dead : List String) (w : World)
        → a + suc n ≡ 10
        → w.lists ≡ waiting (print a) dead
        → (iterate (suc n) (λ t. (step codecs texts env t).1) w).lists ≡ buried (print 9) dead
    upload_failing-buried n a dead w h l =
        iterate-buried 10 (λ k. print k) (λ t. t.lists) (λ t. (step codecs texts env t).1) retries n
          a dead w h l
        ∙ ap (λ (k : ℕ). buried (print k) dead) (let z : a + n ≡ 9 = omega arith in z)
