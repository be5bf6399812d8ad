-- ===== src/Worker/Grupdate/Failures.antt =====
-- What becomes of a group update that fails every time.
use trieve.Prelude.{
  ℕ, suc, ◌+◌, ◌<◌, ◌≤◌, ◌≡◌, refl, ap, ◌∙◌, String, false, none, some, Option, List, arith,
}
use trieve.Errors.{ServiceError, ok, err}
use trieve.Redis.{brpoplpush, pop_right}
use trieve.Worker.{Codec, World, Outcomes, replied, fetch, Next, go_on}
use trieve.Worker.Retry.{healthy, retried, waiting, worked, buried, iterate, iterate-buried}
use trieve.Worker.Grupdate.{
  GroupUpdateMessage, readd_group_error_to_queue, Env, process, handle, step,
}
use trieve.Worker.Grupdate.Accounts.{next_attempt, lists-readd}

-- The error that ends the handling of a message, if one does.
abbrev pub failure : Env → GroupUpdateMessage → Option ServiceError
failure env m = elim (env.get_dataset_by_id m.dataset_id) [
  | err e ↦ some e
  | ok config ↦ elim (env.update_grouped_chunks m.prev_group m.group config) [
    | ok _ ↦ none
    | err e ↦ some e
  ]
]

abbrev pub after : GroupUpdateMessage → ℕ → GroupUpdateMessage
after m a = record m { attempt_number = a }

-- `print a` is what the message `m` is written as when it counts `a` attempts, and is read back.
pub record Prints (codec : Codec GroupUpdateMessage) (m : GroupUpdateMessage) (print : ℕ → String)
    : Type 0 where
  pub writes : (a : ℕ) → a ≤ 3 → codec.to_string (after m a) ≡ some (print a)
  pub reads : (a : ℕ) → a < 3 → codec.from_str (print a) ≡ some (after m a)

-- The worker goes on, Redis answers, and the message `m` fails.
pub record IsFailing (env : Env) (m : GroupUpdateMessage) (e : ServiceError) : Type 0 where
  pub runs : env.should_terminate ≡ false
  pub pops : env.pop ≡ replied
  pub retry : env.retry ≡ healthy
  pub fails : failure env m ≡ some e

module _ (codec : Codec GroupUpdateMessage) (debug : ServiceError → String) (env : Env) where
  handle-failure :
      (text : String) (m : GroupUpdateMessage) (e : ServiceError) (w : World)
      → codec.from_str text ≡ some m
      → failure env m ≡ some e
      → handle codec debug env text w
        ≡ (go_on, (readd_group_error_to_queue codec debug env.retry m e w).1)
  unfolding handle process
  handle-failure text m e w p f = ground arith

  step_handles :
      (text : String) (w w' : World)
      → env.should_terminate ≡ false
      → fetch env.pop w ≡ (some text, w')
      → step codec debug env w ≡ handle codec debug env text w'
  unfolding step
  step_handles text w w' runs popped = ground arith

  module _ (m : GroupUpdateMessage) (print : ℕ → String) (prints : Prints codec m print)
      (e : ServiceError) (failing : IsFailing env m e) where
    retries :
        (a : ℕ) (dead : List String) (w : World)
        → a < 3
        → w.lists ≡ waiting (print a) dead
        → (step codec debug env w).1.lists
          ≡ retried 3 (suc a) (print a) (print (suc a)) (worked (print a) dead)
    retries a dead w lt h =
        let text = print a in
        let w' : World = record w { lists = worked text dead; broken_pipe_sleep = 10 } in
        let new = print (suc a) in
        let attempt : next_attempt (after m a) ≡ suc a = omega arith in
        ap (λ (t : Next × World). t.1.lists)
          (step_handles text w w' failing.runs
              (rw failing.pops (unfold fetch brpoplpush pop_right in rw h refl))
            ∙ handle-failure text (after m a) e w' (prints.reads a lt) failing.fails)
        ∙ ap (λ (o : Outcomes). (readd_group_error_to_queue codec debug o (after m a) e w').1.lists)
            failing.retry
        ∙ lists-readd codec debug (after m a) e w' text new (prints.writes a (omega arith)) (
            ap (λ (k : ℕ). codec.to_string (after m k)) attempt
            ∙ prints.writes (suc a) (omega arith))
        ∙ ap (λ (k : ℕ). retried 3 k text new w'.lists) attempt

    -- A group update whose message is read back as it is written, and that waits alone after `a`
    -- attempts and fails at every pass, while Redis answers, is taken up 3 - a times, and then it
    -- stands among the dead letters, with two attempts counted, and nowhere else.
    pub update_failing-buried :
        (n a : ℕ) (dead : List String) (w : World)
        → a + suc n ≡ 3
        → w.lists ≡ waiting (print a) dead
        → (iterate (suc n) (λ t. (step codec debug env t).1) w).lists ≡ buried (print 2) dead
    update_failing-buried n a dead w h l =
        iterate-buried 3 (λ k. print k) (λ t. t.lists) (λ t. (step codec debug env t).1) retries n a
          dead w h l
        ∙ ap (λ (k : ℕ). buried (print k) dead) (let z : a + n ≡ 2 = omega arith in z)
