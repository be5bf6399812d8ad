-- ===== src/Worker/File/Failures.antt =====
-- What a pass of the file worker does to its lists, and what becomes of an upload that fails every
-- time.
use trieve.Prelude.{
  ℕ, suc, ◌+◌, ◌<◌, ◌≤◌, ◌%◌, ◌^◌, ◌==◌, ◌≡◌, refl, sym, subst, Option, some-injective,
  none-ne-some, ◌⊎◌, ap, ◌∙◌, String, false, none, some, List, ◌∷◌, arith, Bool-cases, Option-cases,
  inl, inr,
}
use trieve.Errors.{ServiceError, Result, ok, err}
use trieve.Models.{Uuid}
use trieve.Redis.{done, brpoplpush, pop_right, lrem_processing, lpush_queue, lpush_dead_letters}
use trieve.Redis.Laws.{size, remove_first_head}
use trieve.Worker.{Codec, World, Outcomes, replied, fetch, Next, go_on}
use trieve.Worker.Retry.{
  healthy, retried, waiting, worked, buried, iterate, iterate-buried, size-retried,
}
use trieve.Worker.File.Queued.{
  ChunksQueued, ChunksQueued-uploads, uploads-ChunksQueued, panic-ne-done, failed-ne-done,
  nothing-ne-done,
}
use trieve.Worker.File.{FileWorkerMessage, readd_error_to_queue, Env, upload_file, handle, step}

abbrev pub next_attempt : FileWorkerMessage → ℕ
next_attempt m = (m.attempt_number + 1) % 2 ^ 8

abbrev pub again : FileWorkerMessage → FileWorkerMessage
again m = record m { attempt_number = next_attempt m }

abbrev pub after : FileWorkerMessage → ℕ → FileWorkerMessage
after m a = record m { attempt_number = a }

-- `print a` is what the message `m` is written as when it counts `a` attempts, and is read back.
pub record Prints (codec : Codec FileWorkerMessage) (m : FileWorkerMessage) (print : ℕ → String)
    : Type 0 where
  pub writes : (a : ℕ) → a ≤ 3 → codec.to_string (after m a) ≡ some (print a)
  pub reads : (a : ℕ) → a < 3 → codec.from_str (print a) ≡ some (after m a)

-- The worker goes on, Redis answers, and the message `m` fails.
pub record IsFailing (env : Env) (m : FileWorkerMessage) (e : ServiceError) : Type 0 where
  pub runs : env.should_terminate ≡ false
  pub pops : env.pop ≡ replied
  pub retry : env.retry ≡ healthy
  pub fails : (a : ℕ) → upload_file env (after m a) ≡ some (err e)

module _ (codec : Codec FileWorkerMessage) (debug : ServiceError → String) (env : Env) where
  pub lists-readd :
      (m : FileWorkerMessage) (e : ServiceError) (w : World) (old new : String)
      → codec.to_string m ≡ some old
      → codec.to_string (again m) ≡ some new
      → (readd_error_to_queue codec debug healthy m e w).1.lists
        ≡ retried 3 (next_attempt m) old new w.lists
  unfolding readd_error_to_queue lrem_processing lpush_queue lpush_dead_letters
  lists-readd m e w old new p q = elim (Bool-cases (next_attempt m == 3)) [
    | inl b ↦ rw (p, b)
    | inr b ↦ rw (p, b, q)
  ]

  taken_off :
      (text : String) (rest : List String) (w : World) (m : FileWorkerMessage) (id : Uuid)
      → env.lrem ≡ done
      → w.lists.processing ≡ text ∷ rest
      → codec.from_str text ≡ some m
      → upload_file env m ≡ some (ok (some id))
      → size (handle codec debug env text w).1.lists + 1 ≡ size w.lists
  unfolding handle lrem_processing
  taken_off text rest w m id l h p u =
      rw (p, handle, u, l, h, remove_first_head text rest) (omega arith)

  kept :
      (text new : String) (rest : List String) (w : World) (m : FileWorkerMessage)
      (e : ServiceError)
      → env.retry ≡ healthy
      → w.lists.processing ≡ text ∷ rest
      → codec.to_string m ≡ some text
      → codec.to_string (again m) ≡ some new
      → codec.from_str text ≡ some m
      → upload_file env m ≡ some (err e)
      → size (handle codec debug env text w).1.lists ≡ size w.lists
  unfolding handle
  kept text new rest w m e r h canonical prints p u =
      rw
        (
          p,
          handle,
          u,
          r,
          lists-readd m e w text new canonical prints,
          size-retried 3 (next_attempt m) text new rest w.lists h,
        )
        refl

  unqueued :
      (text : String) (m : FileWorkerMessage) {o : Option (Result (Option Uuid))}
      → codec.from_str text ≡ some m
      → upload_file env m ≡ o
      → (o ≡ some (ok (some m.file_id)) → ⊥)
      → (m' : FileWorkerMessage) → codec.from_str text ≡ some m'
      → ChunksQueued env m'
      → ⊥
  unqueued text m p u ne m' q c =
      ne (
        sym u
        ∙ ChunksQueued-uploads env m (subst (ChunksQueued env) (some-injective (sym q ∙ p)) c))

  -- While Redis answers and the messages are written as they are read, handling the newest message in
  -- processing takes one message off the lists if the chunks of its file were queued, and none on
  -- every other path; so a file that asked for no chunks stays in processing.
  pub size-handle_file :
      (text new : String) (rest : List String) (w : World)
      → env.retry ≡ healthy
      → env.lrem ≡ done
      → ((m : FileWorkerMessage) → codec.from_str text ≡ some m → codec.to_string m ≡ some text)
      → ((m : FileWorkerMessage)
          → codec.from_str text ≡ some m
          → codec.to_string (again m) ≡ some new)
      → w.lists.processing ≡ text ∷ rest
      → ((m : FileWorkerMessage) × (codec.from_str text ≡ some m)
          × ChunksQueued env m
          × (size (handle codec debug env text w).1.lists + 1 ≡ size w.lists))
        ⊎ (((m : FileWorkerMessage) → codec.from_str text ≡ some m → ChunksQueued env m → ⊥)
            × (size (handle codec debug env text w).1.lists ≡ size w.lists))
  unfolding handle lrem_processing
  size-handle_file text new rest w r l canonical prints h =
      elim (Option-cases (codec.from_str text)) [
        | inl p ↦ inr ((λ m q c. none-ne-some (sym p ∙ q)), rw (p, handle) refl)
        | inr (m, p) ↦ elim (Option-cases (upload_file env m)) [
          | inl u ↦ inr (unqueued text m p u (λ e. panic-ne-done e), rw (p, handle, u) refl)
          | inr (ok (some id), u) ↦
              inl (m, p, uploads-ChunksQueued env m id u, taken_off text rest w m id l h p u)
          | inr (ok none, u) ↦
              inr (unqueued text m p u (λ e. nothing-ne-done e), rw (p, handle, u) refl)
          | inr (err e, u) ↦ inr (
            unqueued text m p u (λ x. failed-ne-done x),
            kept text new rest w m e r h (canonical m p) (prints m p) p u,
          )
        ]
      ]

  handle-failure :
      (text : String) (m : FileWorkerMessage) (e : ServiceError) (w : World)
      → codec.from_str text ≡ some m
      → upload_file env m ≡ some (err e)
      → handle codec debug env text w
        ≡ (go_on, (readd_error_to_queue codec debug env.retry m e w).1)
  unfolding handle
  handle-failure text m e w p f = ground arith

  step_handles :
      (text : String) (w w' : World)
      → env.should_terminate ≡ false
      → fetch env.pop w ≡ (some text, w')
      → step codec debug env w ≡ handle codec debug env text w'
  unfolding step
  step_handles text w w' runs popped = ground arith

  module _ (m : FileWorkerMessage) (print : ℕ → String) (prints : Prints codec m print)
      (e : ServiceError) (failing : IsFailing env m e) where
    retries :
        (a : ℕ) (dead : List String) (w : World)
        → a < 3
        → w.lists ≡ waiting (print a) dead
        → (step codec debug env w).1.lists
          ≡ retried 3 (suc a) (print a) (print (suc a)) (worked (print a) dead)
    retries a dead w lt h =
        let text = print a in
        let w' : World = record w { lists = worked text dead; broken_pipe_sleep = 10 } in
        let new = print (suc a) in
        let attempt : next_attempt (after m a) ≡ suc a = omega arith in
        ap (λ (t : Next × World). t.1.lists)
          (step_handles text w w' failing.runs
              (rw failing.pops (unfold fetch brpoplpush pop_right in rw h refl))
            ∙ handle-failure text (after m a) e w' (prints.reads a lt) (failing.fails a))
        ∙ ap (λ (o : Outcomes). (readd_error_to_queue codec debug o (after m a) e w').1.lists)
            failing.retry
        ∙ lists-readd (after m a) e w' text new (prints.writes a (omega arith)) (
            ap (λ (k : ℕ). codec.to_string (after m k)) attempt
            ∙ prints.writes (suc a) (omega arith))
        ∙ ap (λ (k : ℕ). retried 3 k text new w'.lists) attempt

    -- A file whose message is read back as it is written, and that waits alone after `a` attempts
    -- and fails at every pass, while Redis answers, is taken up 3 - a times, and then it stands
    -- among the dead letters, with two attempts counted, and nowhere else.
    pub file_failing-buried :
        (n a : ℕ) (dead : List String) (w : World)
        → a + suc n ≡ 3
        → w.lists ≡ waiting (print a) dead
        → (iterate (suc n) (λ t. (step codec debug env t).1) w).lists ≡ buried (print 2) dead
    file_failing-buried n a dead w h l =
        iterate-buried 3 (λ k. print k) (λ t. t.lists) (λ t. (step codec debug env t).1) retries n a
          dead w h l
        ∙ ap (λ (k : ℕ). buried (print k) dead) (let z : a + n ≡ 2 = omega arith in z)
