-- ===== src/Worker/Grupdate/Accounts.antt =====
-- What a pass of the group update worker does to its lists.
use trieve.Prelude.{
  ℕ, suc, ◌+◌, ◌%◌, ◌^◌, ◌≡◌, refl, ap, ◌∙◌, String, some, List, [], ◌∷◌, arith, ◌==◌, Bool-cases,
  Option-cases, inl, inr,
}
use trieve.Errors.{ServiceError, Result-cases}
use trieve.Redis.{done, lrem_processing, lpush_queue, lpush_dead_letters}
use trieve.Redis.Laws.{size, remove_first_head}
use trieve.Models.{WorkerEvent, group_chunks_updated}
use trieve.Worker.{Codec, World, fetch}
use trieve.Worker.Fetch.{size-fetch, events-fetch, fetch_head}
use trieve.Worker.Retry.{healthy, retried, size-retried}
use trieve.Worker.Grupdate.{
  GroupUpdateMessage, readd_group_error_to_queue, Env, process, handle, step,
}

abbrev pub next_attempt : GroupUpdateMessage → ℕ
next_attempt m = (m.attempt_number + 1) % 2 ^ 64

abbrev pub again : GroupUpdateMessage → GroupUpdateMessage
again m = record m { attempt_number = next_attempt m }

-- If the text is a message, then the message is written back to this text, and with one more attempt
-- counted it can be written too.
pub record IsFaithful (codec : Codec GroupUpdateMessage) (text : String) : Type 0 where
  pub canonical :
      (m : GroupUpdateMessage) → codec.from_str text ≡ some m → codec.to_string m ≡ some text
  pub print : GroupUpdateMessage → String
  pub prints :
      (m : GroupUpdateMessage)
      → codec.from_str text ≡ some m
      → codec.to_string (again m) ≡ some (print m)

-- Every Redis call of a pass is answered.
pub record IsHealthy (env : Env) : Type 0 where
  pub retry : env.retry ≡ healthy
  pub remove : env.lrem ≡ done

-- The group updates that were reported as done.
abbrev pub reported : List WorkerEvent → ℕ
reported [] = 0
reported (e ∷ es) = elim e.event_type [
  | group_chunks_updated id ↦ suc (reported es)
  | _ ↦ reported es
]

-- The messages in the lists, and those that were carried out.
abbrev pub account : World → ℕ
account w = size w.lists + reported w.events

module _ (codec : Codec GroupUpdateMessage) (debug : ServiceError → String) where
  pub lists-readd :
      (m : GroupUpdateMessage) (e : ServiceError) (w : World) (old new : String)
      → codec.to_string m ≡ some old
      → codec.to_string (again m) ≡ some new
      → (readd_group_error_to_queue codec debug healthy m e w).1.lists
        ≡ retried 3 (next_attempt m) old new w.lists
  unfolding readd_group_error_to_queue lrem_processing lpush_queue lpush_dead_letters
  lists-readd m e w old new p q = elim (Bool-cases (next_attempt m == 3)) [
    | inl b ↦ rw (p, b)
    | inr b ↦ rw (p, b, q)
  ]

  reported-readd :
      (m : GroupUpdateMessage) (e : ServiceError) (w : World) (old new : String)
      → codec.to_string m ≡ some old
      → codec.to_string (again m) ≡ some new
      → reported (readd_group_error_to_queue codec debug healthy m e w).1.events ≡ reported w.events
  unfolding readd_group_error_to_queue
  reported-readd m e w old new p q = elim (Bool-cases (next_attempt m == 3)) [
    | inl b ↦ rw (p, b)
    | inr b ↦ rw (p, b, q)
  ]

module _ (codec : Codec GroupUpdateMessage) (debug : ServiceError → String) (env : Env)
    (healthy_env : IsHealthy env) where
  account-readd :
      (text : String) (faithful : IsFaithful codec text) (rest : List String)
      (m : GroupUpdateMessage) (e : ServiceError) (w : World)
      → codec.from_str text ≡ some m
      → w.lists.processing ≡ text ∷ rest
      → account (readd_group_error_to_queue codec debug env.retry m e w).1 ≡ account w
  account-readd text faithful rest m e w p h =
      let new = faithful.print m in
      let q = faithful.canonical m p in
      rw (
        healthy_env.retry,
        lists-readd codec debug m e w text new q (faithful.prints m p),
        reported-readd codec debug m e w text new q (faithful.prints m p),
        size-retried 3 (next_attempt m) text new rest w.lists h,
      )

  account-process :
      (text : String) (faithful : IsFaithful codec text) (rest : List String)
      (m : GroupUpdateMessage) (w : World)
      → codec.from_str text ≡ some m
      → w.lists.processing ≡ text ∷ rest
      → account (process codec debug env text m w) ≡ account w
  unfolding process lrem_processing
  account-process text faithful rest m w p h =
      elim (Result-cases (env.get_dataset_by_id m.dataset_id)) [
        | inl (config, g) ↦
            elim (Result-cases (env.update_grouped_chunks m.prev_group m.group config)) [
              | inl (a, e) ↦
                  rw (g, process, e, healthy_env.remove, h, remove_first_head text rest)
                    (omega arith)
              | inr (x, e) ↦ rw (g, process, e) (account-readd text faithful rest m x w p h)
            ]
        | inr (x, g) ↦ rw (g, process) (account-readd text faithful rest m x w p h)
      ]

  account-handle :
      (text : String) (faithful : IsFaithful codec text) (rest : List String) (w : World)
      → w.lists.processing ≡ text ∷ rest
      → account (handle codec debug env text w).1 ≡ account w
  unfolding handle
  account-handle text faithful rest w h = elim (Option-cases (codec.from_str text)) [
    | inl e ↦ rw (e, handle) refl
    | inr (m, e) ↦ rw (e, handle) (account-process text faithful rest m w e h)
  ]

  account-fetch : (w : World) → account (fetch env.pop w).1 ≡ account w
  account-fetch w = omega (arith, size-fetch env.pop w, ap reported (events-fetch env.pop w))

  -- While Redis answers, and the text that is taken is what its message is written as and the
  -- message can be written with one more attempt, no pass of the loop loses or duplicates a
  -- message: with the updates that were reported as done counted in, there are as many as before.
  pub account-step_grupdate :
      (w : World)
      → ((text : String) → (fetch env.pop w).0 ≡ some text → IsFaithful codec text)
      → account (step codec debug env w).1 ≡ account w
  unfolding step
  account-step_grupdate w faithful = elim (Bool-cases env.should_terminate) [
    | inl t ↦ rw (t, step) refl
    | inr t ↦ elim (Option-cases (fetch env.pop w).0) [
      | inl e ↦ rw (t, step, e) (account-fetch w)
      | inr (text, e) ↦
          rw (t, step, e)
            (account-handle text (faithful text e) w.lists.processing (fetch env.pop w).1
                (fetch_head env.pop w text e)
              ∙ account-fetch w)
    ]
  ]
