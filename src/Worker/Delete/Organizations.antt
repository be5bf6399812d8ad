-- ===== src/Worker/Delete/Organizations.antt =====
-- When the delete worker deletes an organization, and what a broken connection costs.
use trieve.Prelude.{
  ℕ, ◌+◌, ◌≡◌, ◌≢◌, refl, ap, String, Bool, true, some, List, [], ◌∷◌, arith, Bool-cases, inl, inr,
  ◌==◌,
}
use trieve.Errors.{ServiceError, bad_request, ok, err, Result-cases}
use trieve.Redis.{Call, done, failed, lrem_processing}
use trieve.Redis.Laws.{size, remove_first_head}
use trieve.Worker.{Codec, World}
use trieve.Worker.Delete.{
  DeleteMessage, Dataset, Write, delete_dataset, delete_organization, State, Env, contains, readd,
  readd_error_to_queue, finish, wrote, delete_empty_organization, process,
}
use trieve.Worker.Delete.Accounts.{next_attempt}

module _ (codec : Codec DeleteMessage) (debug : ServiceError → String) (env : Env) where
  empty_organization :
      (org0 org : ℕ) (ws : List Write) (s : State) (w : Write)
      → s.writes ≡ w ∷ []
      → ((id : ℕ) → w ≢ delete_organization id)
      → (delete_empty_organization codec debug env org0 s).writes ≡ delete_organization org ∷ ws
      → (org0 ≡ org)
        × (ws ≡ w ∷ [])
        × (contains s.deleted_organizations org ≡ true)
        × (env.soft_deleted_datasets org ≡ ok [])
  unfolding delete_empty_organization wrote
  empty_organization org0 org ws s w e other h = ground (arith, other org)

  -- An organization is deleted only after its dataset was, only if it was marked for deletion, and
  -- only if none of its datasets waits to be deleted.
  pub organization_deleted :
      (text : String) (m : DeleteMessage) (d : Dataset) (s : State) (org : ℕ) (ws : List Write)
      → s.writes ≡ []
      → (process codec debug env text m d s).writes ≡ delete_organization org ∷ ws
      → (deleted : Dataset) × (env.delete m.dataset_id m.deleted_at d.server_configuration
          ≡ ok deleted)
        × (deleted.organization_id ≡ org)
        × (ws ≡ delete_dataset m.dataset_id m.deleted_at ∷ [])
        × (contains s.deleted_organizations org ≡ true)
        × (env.soft_deleted_datasets org ≡ ok [])
  unfolding process wrote finish readd
  organization_deleted text m d s org ws e h = elim (Bool-cases m.empty_dataset) [
    | inl empty ↦ absurd (ground arith)
    | inr whole ↦
        elim (Result-cases (env.delete m.dataset_id m.deleted_at d.server_configuration)) [
          | inl (x, p) ↦
              let t =
                finish codec debug env text
                  (wrote codec debug env (delete_dataset m.dataset_id m.deleted_at) s) in
              let (a, b, c, f) =
                empty_organization x.organization_id org ws t
                  (delete_dataset m.dataset_id m.deleted_at)
                  (ap (λ (l : List Write). delete_dataset m.dataset_id m.deleted_at ∷ l) e)
                  (λ id q. cc) (rw (whole, process, p) at h) in
              (x, p, a, b, c, f)
          | inr (x, p) ↦ absurd (ground arith)
        ]
  ]

module _ (codec : Codec DeleteMessage) (debug : ServiceError → String) where
  -- If Redis answers the LREM of a retry and the pool then has no connection, the message is gone:
  -- the retry returns an error, and the lists hold one message less.
  pub readd_loses :
      (m : DeleteMessage) (e : ServiceError) (w : World) (old new x : String) (rest : List String)
      (b : Bool) (c : Call)
      → codec.to_string m ≡ some old
      → codec.to_string (record m { attempt_number = next_attempt m }) ≡ some new
      → w.lists.processing ≡ old ∷ rest
      → let (r, w') =
          readd_error_to_queue codec debug
            (record { conn = done; lrem = done; conn_again = failed b x; lpush = c })
            m
            e
            w in
        (r ≡ err (bad_request x)) × (size w'.lists + 1 ≡ size w.lists)
  unfolding readd_error_to_queue lrem_processing
  readd_loses m e w old new x rest b c p q h = elim (Bool-cases (next_attempt m == 3)) [
    | inl t ↦ rw (p, t, h, remove_first_head old rest) (refl, omega arith)
    | inr t ↦ rw (p, t, q, h, remove_first_head old rest) (refl, omega arith)
  ]
