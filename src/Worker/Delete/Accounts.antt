-- ===== src/Worker/Delete/Accounts.antt =====
-- What a pass of the delete worker does to its lists.
use trieve.Prelude.{
  ℕ, suc, ◌+◌, ◌%◌, ◌^◌, ◌≡◌, refl, ◌∙◌, String, some, List, [], ◌∷◌, arith, ◌==◌, Bool-cases,
  Option-cases, inl, inr,
}
use trieve.Errors.{ServiceError, Result-cases}
use trieve.Redis.{done, lrem_processing, lpush_queue, lpush_dead_letters}
use trieve.Redis.Laws.{size, remove_first_head}
use trieve.Worker.{Codec, World, fetch}
use trieve.Worker.Fetch.{size-fetch, fetch_head}
use trieve.Worker.Retry.{healthy, retried, size-retried}
use trieve.Worker.Delete.{
  DeleteMessage, Dataset, Write, clear_dataset, delete_dataset, delete_organization, State, Env,
  readd_error_to_queue, readd, finish, wrote, delete_empty_organization, process, handle, step,
}

abbrev pub next_attempt : DeleteMessage → ℕ
next_attempt m = (m.attempt_number + 1) % 2 ^ 64

abbrev pub again : DeleteMessage → DeleteMessage
again m = record m { attempt_number = next_attempt m }

module _ (codec : Codec DeleteMessage) (debug : ServiceError → String) where
  pub lists-readd :
      (m : DeleteMessage) (e : ServiceError) (w : World) (old new : String)
      → codec.to_string m ≡ some old
      → codec.to_string (again m) ≡ some new
      → (readd_error_to_queue codec debug healthy m e w).1.lists
        ≡ retried 3 (next_attempt m) old new w.lists
  unfolding readd_error_to_queue lrem_processing lpush_queue lpush_dead_letters
  lists-readd m e w old new p q = elim (Bool-cases (next_attempt m == 3)) [
    | inl b ↦ rw (p, b)
    | inr b ↦ rw (p, b, q)
  ]

-- Every Redis call of a pass is answered.
pub record IsHealthy (env : Env) : Type 0 where
  pub retry : env.retry ≡ healthy
  pub remove : env.lrem ≡ done

-- If the text is a message, then the message is written back to this text, and with one more attempt
-- counted it can be written too.
pub record IsFaithful (codec : Codec DeleteMessage) (text : String) : Type 0 where
  pub canonical : (m : DeleteMessage) → codec.from_str text ≡ some m → codec.to_string m ≡ some text
  pub print : DeleteMessage → String
  pub prints :
      (m : DeleteMessage)
      → codec.from_str text ≡ some m
      → codec.to_string (again m) ≡ some (print m)

-- The datasets that were cleared or deleted.
abbrev pub handled : List Write → ℕ
handled [] = 0
handled (clear_dataset id at ∷ ws) = suc (handled ws)
handled (delete_dataset id at ∷ ws) = suc (handled ws)
handled (delete_organization id ∷ ws) = handled ws

-- The messages in the lists, and those that were carried out.
abbrev pub account : State → ℕ
account s = size s.world.lists + handled s.writes

module _ (codec : Codec DeleteMessage) (debug : ServiceError → String) (env : Env)
    (healthy_env : IsHealthy env) where
  account-readd :
      (text : String) (faithful : IsFaithful codec text) (rest : List String) (m : DeleteMessage)
      (e : ServiceError) (s : State)
      → codec.from_str text ≡ some m
      → s.world.lists.processing ≡ text ∷ rest
      → account (readd codec debug env m e s) ≡ account s
  unfolding readd
  account-readd text faithful rest m e s p h = rw (
    healthy_env.retry,
    lists-readd codec debug m e s.world text (faithful.print m) (faithful.canonical m p)
        (faithful.prints m p),
    size-retried 3 (next_attempt m) text (faithful.print m) rest s.world.lists h,
  )

  account-delete_empty_organization :
      (org : ℕ) (s : State) → account (delete_empty_organization codec debug env org s) ≡ account s
  unfolding delete_empty_organization wrote
  account-delete_empty_organization org s = ground arith

  account-done :
      (text : String) (rest : List String) (w : Write) (s : State)
      → handled (w ∷ s.writes) ≡ suc (handled s.writes)
      → s.world.lists.processing ≡ text ∷ rest
      → account (finish codec debug env text (wrote codec debug env w s)) ≡ account s
  unfolding finish wrote lrem_processing
  account-done text rest w s n h =
      rw (healthy_env.remove, h, remove_first_head text rest) (omega arith)

  account-process :
      (text : String) (faithful : IsFaithful codec text) (rest : List String) (m : DeleteMessage)
      (d : Dataset) (s : State)
      → codec.from_str text ≡ some m
      → s.world.lists.processing ≡ text ∷ rest
      → account (process codec debug env text m d s) ≡ account s
  unfolding process
  account-process text faithful rest m d s p h =
      let cleared = clear_dataset m.dataset_id m.deleted_at in
      let deleted = delete_dataset m.dataset_id m.deleted_at in
      elim (Bool-cases m.empty_dataset) [
        | inl empty ↦
            elim (Result-cases (env.clear m.dataset_id m.deleted_at d.server_configuration)) [
              | inl (a, e) ↦ rw (empty, e, process) (account-done text rest cleared s refl h)
              | inr (x, e) ↦ rw (empty, e, process) (account-readd text faithful rest m x s p h)
            ]
        | inr whole ↦
            elim (Result-cases (env.delete m.dataset_id m.deleted_at d.server_configuration)) [
              | inl (a, e) ↦
                  rw (whole, e, process)
                    (account-delete_empty_organization a.organization_id _
                      ∙ account-done text rest deleted s refl h)
              | inr (x, e) ↦ rw (whole, e, process) (account-readd text faithful rest m x s p h)
            ]
      ]

  account-handle :
      (text : String) (faithful : IsFaithful codec text) (rest : List String) (s : State)
      → s.world.lists.processing ≡ text ∷ rest
      → account (handle codec debug env text s).1 ≡ account s
  unfolding handle
  account-handle text faithful rest s h = elim (Option-cases (codec.from_str text)) [
    | inl e ↦ rw (e, handle) refl
    | inr (m, e) ↦ elim (Result-cases (env.get_deleted_dataset m.dataset_id)) [
      | inl (d, g) ↦ rw (e, handle, g) (account-process text faithful rest m d s e h)
      | inr (x, g) ↦ rw (e, handle, g) (account-readd text faithful rest m x s e h)
    ]
  ]

  -- While Redis answers, and the text that is taken is what its message is written as and the
  -- message can be written with one more attempt, no pass of the loop loses or duplicates a
  -- message: with the datasets that were cleared or deleted counted in, there are as many as
  -- before.
  pub account-step :
      (s : State)
      → ((text : String) → (fetch env.pop s.world).0 ≡ some text → IsFaithful codec text)
      → account (step codec debug env s).1 ≡ account s
  unfolding step
  account-step s faithful =
      let w = (fetch env.pop s.world).1 in
      let fetched : account (record s { world = w }) ≡ account s =
        omega (arith, size-fetch env.pop s.world) in
      elim (Bool-cases env.should_terminate) [
        | inl t ↦ rw (t, step) refl
        | inr t ↦ elim (Option-cases (fetch env.pop s.world).0) [
          | inl e ↦ rw (t, step, e) fetched
          | inr (text, e) ↦
              rw (t, step, e)
                (account-handle text (faithful text e) s.world.lists.processing
                    (record s { world = w }) (fetch_head env.pop s.world text e)
                  ∙ fetched)
        ]
      ]
