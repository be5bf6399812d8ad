-- ===== src/Enqueue/Limits.antt =====
-- What the answers of create_chunk of server/src/handlers/chunk_handler.rs promise.
use trieve.Prelude.{
  ℕ, suc, ◌%◌, ◌^◌, ◌≢◌, str_eq, eq_iff, unwrap_or, Option, none, some, ◌+◌, ◌≤◌, ◌≡◌, ◌⊎◌, refl,
  ap, sym, ◌∙◌, String, true, false, not, List, [], ◌∷◌, ◌++◌, map, arith, ltb, retain, length,
  length-append, Bool-cases, inl, inr,
}
use trieve.Errors.{ok, Result-cases, err-ne-ok, ok-injective}
use trieve.Redis.{reply}
use trieve.Models.{Uuid, ChunkReqPayload, UploadIngestionMessage}
use trieve.Enqueue.{ChunkMetadata, Services, create_chunk_metadata}
use trieve.Enqueue.Metadata.{AllMatch, create_chunk_metadata-AllMatch}
use trieve.Enqueue.Handler.{
  batch, upgrade_required, queued_batch, Env, as_usize, default_chunk_count, over_plan, is_upsert,
  normalize, enqueue, push_batches, queue_chunks, create_chunk,
}

true-ne-false : true ≡ false → ⊥
true-ne-false h = cc

ltb-false : (a b : ℕ) → ltb a b ≡ false → b ≤ a
ltb-false a b h = ground arith

batch_answers :
    (a b : List ChunkMetadata) (p q : ℕ) → ok (queued_batch a p) ≡ ok (queued_batch b q) → a ≡ b
batch_answers a b p q h = cc

refused-ne-queued :
    (a : List ChunkMetadata) (p : ℕ) → ok upgrade_required ≡ ok (queued_batch a p) → ⊥
refused-ne-queued a p h = cc

AllMatch-length :
    (services : Services) (dataset : Uuid) (chunks : List ChunkReqPayload)
    (messages : List UploadIngestionMessage) (metadatas : List ChunkMetadata)
    → AllMatch services dataset chunks messages metadatas
    → length metadatas ≡ length chunks
AllMatch-length services dataset [] [] [] h = refl
AllMatch-length services dataset [] [] (d ∷ ds) h = absurd h
AllMatch-length services dataset [] (m ∷ ms) ds h = absurd h
AllMatch-length services dataset (c ∷ cs) [] ds h = absurd h
AllMatch-length services dataset (c ∷ cs) (m ∷ ms) [] h = absurd h
AllMatch-length services dataset (c ∷ cs) (m ∷ ms) (d ∷ ds) (a, h) =
    ap suc (AllMatch-length services dataset cs ms ds h)

length-partition :
    (xs : List ChunkReqPayload)
    → length (retain (λ c. not (is_upsert c)) xs) + length (retain is_upsert xs) ≡ length xs
length-partition [] = omega arith
length-partition (x ∷ xs) = elim (Bool-cases (is_upsert x)) [
  | inl t ↦ rw t (omega (arith, length-partition xs))
  | inr t ↦ rw t (omega (arith, length-partition xs))
]

length-map-normalize : (xs : List ChunkReqPayload) → length (map normalize xs) ≡ length xs
length-map-normalize [] = refl
length-map-normalize (x ∷ xs) = ap suc (length-map-normalize xs)

-- The chunks that the organization has and `count` more are at most as many as its plan, or the default
-- plan, allows; unless UNLIMITED is set to something else than false, so that no plan counts.
abbrev pub HasRoom : Env → ℕ → Type 0
HasRoom env count =
    ((unlimited : String) × (env.unlimited ≡ some unlimited) × (unlimited ≢ "false"))
    ⊎ ((rows : ℕ) × (env.row_count ≡ ok rows)
        × ((rows + count) % 2 ^ 64
            ≤ as_usize (unwrap_or env.plan_chunk_count (default_chunk_count env.unlimited))))

set_otherwise :
    (unlimited : Option String)
    → str_eq (unwrap_or unlimited "false") "false" ≡ false
    → (text : String) × (unlimited ≡ some text) × (text ≢ "false")
set_otherwise none h = absurd (true-ne-false h)
set_otherwise (some text) h = (text, refl, λ e. true-ne-false (sym ((eq_iff text "false").1 e) ∙ h))

over_plan-HasRoom : (env : Env) (count : ℕ) → over_plan env count ≡ ok false → HasRoom env count
unfolding over_plan
over_plan-HasRoom env count h =
    elim (Bool-cases (str_eq (unwrap_or env.unlimited "false") "false")) [
      | inr b ↦ inl (set_otherwise env.unlimited b)
      | inl b ↦ elim (Result-cases env.row_count) [
        | inr (x, c) ↦ absurd (err-ne-ok (rw (over_plan, b, c) at h))
        | inl (rows, c) ↦
            let lt : ltb
                  (as_usize (unwrap_or env.plan_chunk_count (default_chunk_count env.unlimited)))
                  ((rows + count) % 2 ^ 64)
                ≡ false =
              ok-injective (rw (over_plan, b, c) at h) in
            inr (rows, c, ltb-false _ _ lt)
      ]
    ]

module _ (services : Services) (dataset : Uuid) (env : Env) where
  push_batches-answers :
      (chunks : List ChunkReqPayload) (a b : List UploadIngestionMessage × List ChunkMetadata)
      (queue : List String) (ms : List ChunkMetadata) (pos_in_queue : ℕ)
      → (push_batches services dataset env (batch chunks) a b queue).0
        ≡ ok (queued_batch ms pos_in_queue)
      → a.1 ++ b.1 ≡ ms
  unfolding push_batches
  push_batches-answers chunks a b queue ms pos_in_queue h =
      let first = enqueue env env.lpush dataset a 0 queue in
      elim (Result-cases (reply env.conn)) [
        | inr (x, c) ↦ absurd (err-ne-ok (rw (push_batches, c) at h))
        | inl (u, c) ↦ elim (Result-cases first.0) [
          | inr (x, d) ↦ absurd (err-ne-ok (rw (push_batches, c, d) at h))
          | inl (p, d) ↦ elim (Result-cases (enqueue env env.lpush_upsert dataset b p first.1).0) [
            | inr (x, e) ↦ absurd (err-ne-ok (rw (push_batches, c, d, e) at h))
            | inl (q, e) ↦
                batch_answers (a.1 ++ b.1) ms q pos_in_queue (rw (push_batches, c, d, e) at h)
          ]
        ]
      ]

  queue_chunks-answers :
      (chunks : List ChunkReqPayload) (queue : List String) (ms : List ChunkMetadata)
      (pos_in_queue : ℕ)
      → (queue_chunks services dataset env (batch chunks) queue).0
        ≡ ok (queued_batch ms pos_in_queue)
      → (length ms ≡ length chunks) × (length chunks ≤ 120)
  unfolding queue_chunks
  queue_chunks-answers chunks queue ms pos_in_queue h =
      let all = map normalize chunks in
      let others = retain (λ c. not (is_upsert c)) all in
      let upserts = retain is_upsert all in
      elim (Bool-cases (ltb 120 (length chunks))) [
        | inl t ↦ absurd (err-ne-ok (rw (queue_chunks, t) at h))
        | inr t ↦ elim (Result-cases (create_chunk_metadata services dataset 0 others)) [
          | inr (x, c) ↦ absurd (err-ne-ok (rw (queue_chunks, t, c) at h))
          | inl (a, c) ↦
              elim (Result-cases (create_chunk_metadata services dataset (length others) upserts)) [
                | inr (x, d) ↦ absurd (err-ne-ok (rw (queue_chunks, t, c, d) at h))
                | inl (b, d) ↦
                    let joined =
                      push_batches-answers chunks a b queue ms pos_in_queue
                        (rw (queue_chunks, t, c, d) at h) in
                    let la =
                      AllMatch-length services dataset others a.0 a.1
                        (create_chunk_metadata-AllMatch services dataset 0 others a.0 a.1 c) in
                    let lb = AllMatch-length services dataset upserts b.0 b.1 (
                      create_chunk_metadata-AllMatch services dataset (length others) upserts b.0
                        b.1 d) in
                    (
                      sym (ap length joined)
                          ∙ omega (
                            arith,
                            length-append a.1 b.1,
                            la,
                            lb,
                            length-partition all,
                            length-map-normalize chunks,
                          ),
                      ground arith,
                    )
              ]
        ]
      ]

  -- A batch request that is answered as queued has an answer for each of its chunks, at most 120 of
  -- them, and with them the organization has at most as many chunks as its plan allows, unless
  -- UNLIMITED is set to something else than false.
  pub create_chunk-answers :
      (chunks : List ChunkReqPayload) (queue : List String) (ms : List ChunkMetadata)
      (pos_in_queue : ℕ)
      → (create_chunk services dataset env (batch chunks) queue).0
        ≡ ok (queued_batch ms pos_in_queue)
      → (length ms ≡ length chunks) × (length chunks ≤ 120) × HasRoom env (length chunks)
  unfolding create_chunk
  create_chunk-answers chunks queue ms pos_in_queue h =
      elim (Result-cases (over_plan env (length chunks))) [
        | inr (x, o) ↦ absurd (err-ne-ok (rw (create_chunk, o) at h))
        | inl (true, o) ↦ absurd (refused-ne-queued ms pos_in_queue (rw (create_chunk, o) at h))
        | inl (false, o) ↦
            let (a, b) =
              queue_chunks-answers chunks queue ms pos_in_queue (rw (create_chunk, o) at h) in
            (a, b, over_plan-HasRoom env (length chunks) o)
      ]
