-- ===== src/Worker/Delete/Failures.antt =====
-- What becomes of a deletion that fails every time, and what a broken Redis connection can do.
use trieve.Prelude.{
  ℕ, suc, ◌+◌, ◌≤◌, ◌<◌, ◌≡◌, refl, ◌∙◌, ap, String, false, Option, none, some, List, arith,
  if◌then◌else◌,
}
use trieve.Errors.{ServiceError, ok, err}
use trieve.Redis.{brpoplpush, pop_right}
use trieve.Worker.{Codec, World, Outcomes, replied, fetch}
use trieve.Worker.Retry.{healthy, retried, waiting, worked, buried, iterate, iterate-buried}
use trieve.Worker.Delete.{
  DeleteMessage, State, Env, readd_error_to_queue, readd, process, handle, step,
}
use trieve.Worker.Delete.Accounts.{next_attempt, lists-readd}

-- The error that ends the handling of a message, if one does.
abbrev pub failure : Env → DeleteMessage → Option ServiceError
failure env m = elim (env.get_deleted_dataset m.dataset_id) [
  | err e ↦ some e
  | ok d ↦
      if m.empty_dataset
      then (elim (env.clear m.dataset_id m.deleted_at d.server_configuration) [
        | ok _ ↦ none
        | err e ↦ some e
      ])
      else (elim (env.delete m.dataset_id m.deleted_at d.server_configuration) [
        | ok _ ↦ none
        | err e ↦ some e
      ])
]

abbrev pub after : DeleteMessage → ℕ → DeleteMessage
after m a = record m { attempt_number = a }

-- The worker goes on, Redis answers, and the message `m` fails.
pub record IsFailing (env : Env) (m : DeleteMessage) (e : ServiceError) : Type 0 where
  pub runs : env.should_terminate ≡ false
  pub pops : env.pop ≡ replied
  pub retry : env.retry ≡ healthy
  pub fails : failure env m ≡ some e

-- `print a` is what the message `m` is written as when it counts `a` attempts, and is read back.
pub record Prints (codec : Codec DeleteMessage) (m : DeleteMessage) (print : ℕ → String)
    : Type 0 where
  pub writes : (a : ℕ) → a ≤ 3 → codec.to_string (after m a) ≡ some (print a)
  pub reads : (a : ℕ) → a < 3 → codec.from_str (print a) ≡ some (after m a)

module _ (codec : Codec DeleteMessage) (debug : ServiceError → String) (env : Env) where
  handle-failure :
      (text : String) (m : DeleteMessage) (e : ServiceError) (s : State)
      → codec.from_str text ≡ some m
      → failure env m ≡ some e
      → (handle codec debug env text s).1 ≡ readd codec debug env m e s
  unfolding handle process
  handle-failure text m e s p f = ground (arith)

  step_handles :
      (text : String) (w : World) (s : State)
      → env.should_terminate ≡ false
      → fetch env.pop s.world ≡ (some text, w)
      → (step codec debug env s).1 ≡ (handle codec debug env text (record s { world = w })).1
  unfolding step
  step_handles text w s runs popped = ground arith

  module _ (m : DeleteMessage) (print : ℕ → String) (prints : Prints codec m print)
      (e : ServiceError) (failing : IsFailing env m e) where
    retries :
        (a : ℕ) (dead : List String) (s : State)
        → a < 3
        → s.world.lists ≡ waiting (print a) dead
        → (step codec debug env s).1.world.lists
          ≡ retried 3 (suc a) (print a) (print (suc a)) (worked (print a) dead)
    unfolding readd
    retries a dead s lt h =
        let text = print a in
        let w : World = record s.world { lists = worked text dead; broken_pipe_sleep = 10 } in
        let new = print (suc a) in
        let attempt : next_attempt (after m a) ≡ suc a = omega arith in
        ap (λ (t : State). t.world.lists)
          (step_handles text w s failing.runs
              (rw failing.pops (unfold fetch brpoplpush pop_right in rw h refl))
            ∙ handle-failure text (after m a) e (record s { world = w }) (prints.reads a lt)
                failing.fails)
        ∙ ap (λ (o : Outcomes). (readd_error_to_queue codec debug o (after m a) e w).1.lists)
            failing.retry
        ∙ lists-readd codec debug (after m a) e w text new (prints.writes a (omega arith)) (
            ap (λ (k : ℕ). codec.to_string (after m k)) attempt
            ∙ prints.writes (suc a) (omega arith))
        ∙ ap (λ (k : ℕ). retried 3 k text new w.lists) attempt

    -- A deletion whose message is read back as it is written, and that waits alone after `a`
    -- attempts and fails at every pass, while Redis answers, is taken up 3 - a times, and then it
    -- stands among the dead letters, with two attempts counted, and nowhere else.
    pub failing-buried :
        (n a : ℕ) (dead : List String) (s : State)
        → a + suc n ≡ 3
        → s.world.lists ≡ waiting (print a) dead
        → (iterate (suc n) (λ t. (step codec debug env t).1) s).world.lists ≡ buried (print 2) dead
    failing-buried n a dead s h w =
        iterate-buried 3 (λ k. print k) (λ t. t.world.lists) (λ t. (step codec debug env t).1)
          retries n a dead s h w
        ∙ ap (λ (k : ℕ). buried (print k) dead) (let z : a + n ≡ 2 = omega arith in z)
