-- ===== src/Worker/File/Queued.antt =====
-- When upload_file of server/src/bin/file-worker.rs has queued the chunks of a file.
use trieve.Prelude.{
  ℕ, ◌≡◌, refl, String, str_eq, true, false, none, some, List, length, unwrap_or, Bool-cases,
  Option-cases, inl, inr, some-injective,
}
use trieve.Errors.{ServiceError, ok, err, Result-cases, err-ne-ok}
use trieve.Models.{Uuid}
use trieve.Worker.File.{FileWorkerMessage, Env, file_size_mb, store_html, upload_file}

none-ok-ne-some : {A : Type 0} {a : A} → ok none ≡ ok (some a) → ⊥
none-ok-ne-some h = cc

pub panic-ne-done : {A : Type 0} {a : A} → none ≡ some (ok (some a)) → ⊥
panic-ne-done h = cc

pub failed-ne-done : {A : Type 0} {e : ServiceError} {a : A} → some (err e) ≡ some (ok (some a)) → ⊥
failed-ne-done h = cc

pub nothing-ne-done : {A : Type 0} {a : A} → some (ok none) ≡ some (ok (some a)) → ⊥
nothing-ne-done h = cc

module _ (env : Env) where
  stores-html :
      (m : FileWorkerMessage) (file_data : List ℕ) (html : String) (id : Uuid)
      → store_html env m file_data html ≡ ok (some id)
      → (created_file : Uuid) × (dataset : String) × (str_eq html "" ≡ false)
        × (env.create_file_query m.file_id
              (file_size_mb (length file_data))
              m.upload_file_data
              m.dataset_id
            ≡ ok created_file)
        × (unwrap_or m.upload_file_data.create_chunks true ≡ true)
        × (env.get_dataset_and_organization m.dataset_id ≡ ok dataset)
        × (env.create_file_chunks created_file m.upload_file_data html dataset ≡ ok tt)
  unfolding store_html
  stores-html m file_data html id u = elim (Bool-cases (str_eq html "")) [
    | inl a ↦ absurd (err-ne-ok (rw (store_html, a) at u))
    | inr a ↦
        elim (Result-cases (
          env.create_file_query m.file_id (file_size_mb (length file_data)) m.upload_file_data
            m.dataset_id)) [
              | inr (x, b) ↦ absurd (err-ne-ok (rw (store_html, a, b) at u))
              | inl (created, b) ↦
                  elim (Bool-cases (unwrap_or m.upload_file_data.create_chunks true)) [
                    | inr c ↦ absurd (none-ok-ne-some (rw (store_html, a, b, c) at u))
                    | inl c ↦ elim (Result-cases (env.get_dataset_and_organization m.dataset_id)) [
                      | inr (x, d) ↦ absurd (err-ne-ok (rw (store_html, a, b, c, d) at u))
                      | inl (dataset, d) ↦
                          elim (Result-cases
                            (env.create_file_chunks created m.upload_file_data html dataset)) [
                              | inr (x, e) ↦
                                  absurd (err-ne-ok (rw (store_html, a, b, c, d, e) at u))
                              | inl (tt, e) ↦ (created, dataset, a, b, c, d, e)
                            ]
                    ]
                  ]
            ]
  ]

  -- The file of a message was found, turned into a text that is not empty, recorded, and its chunks,
  -- which the message asks for, were queued.
  abbrev pub ChunksQueued : FileWorkerMessage → Type 0
  ChunksQueued m =
      (file_data bytes : List ℕ) × (url : String) × (created_file : Uuid) × (dataset : String)
      × (env.get_aws_bucket ≡ ok tt)
      × (env.get_object m.file_id ≡ some file_data)
      × (env.tika_url ≡ some url)
      × (env.tika_send url file_data ≡ true)
      × (env.tika_bytes file_data ≡ some bytes)
      × (str_eq (env.from_utf8_lossy bytes) "" ≡ false)
      × (env.create_file_query m.file_id (file_size_mb (length file_data)) m.upload_file_data
            m.dataset_id
          ≡ ok created_file)
      × (unwrap_or m.upload_file_data.create_chunks true ≡ true)
      × (env.get_dataset_and_organization m.dataset_id ≡ ok dataset)
      × (env.create_file_chunks created_file m.upload_file_data (env.from_utf8_lossy bytes) dataset
          ≡ ok tt)

  pub ChunksQueued-uploads :
      (m : FileWorkerMessage) → ChunksQueued m → upload_file env m ≡ some (ok (some m.file_id))
  unfolding upload_file store_html
  ChunksQueued-uploads m (file_data, bytes, url, created, dataset, a, b, c, d, e, f, g, h, i, j) =
      rw (upload_file, a, b, c, d, e, store_html, f, g, h, i, j) refl

  pub uploads-ChunksQueued :
      (m : FileWorkerMessage) (id : Uuid) → upload_file env m ≡ some (ok (some id)) → ChunksQueued m
  unfolding upload_file store_html
  uploads-ChunksQueued m id u = elim (Result-cases env.get_aws_bucket) [
    | inr (x, a) ↦ absurd (failed-ne-done (rw (upload_file, a) at u))
    | inl (tt, a) ↦ elim (Option-cases (env.get_object m.file_id)) [
      | inl b ↦ absurd (failed-ne-done (rw (upload_file, a, b) at u))
      | inr (file_data, b) ↦ elim (Option-cases env.tika_url) [
        | inl c ↦ absurd (panic-ne-done (rw (upload_file, a, b, c) at u))
        | inr (url, c) ↦ elim (Bool-cases (env.tika_send url file_data)) [
          | inr d ↦ absurd (failed-ne-done (rw (upload_file, a, b, c, d) at u))
          | inl d ↦ elim (Option-cases (env.tika_bytes file_data)) [
            | inl e ↦ absurd (failed-ne-done (rw (upload_file, a, b, c, d, e) at u))
            | inr (bytes, e) ↦
                let (created, dataset, f, g, h, i, j) =
                  stores-html m file_data (env.from_utf8_lossy bytes) id
                    (some-injective (rw (upload_file, a, b, c, d, e) at u)) in
                (file_data, bytes, url, created, dataset, a, b, c, d, e, f, g, h, i, j)
          ]
        ]
      ]
    ]
  ]
