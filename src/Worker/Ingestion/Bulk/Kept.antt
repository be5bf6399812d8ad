-- ===== src/Worker/Ingestion/Bulk/Kept.antt =====
-- What the chunks that bulk_insert_chunk_metadata_query of server/src/operators/chunk_operator.rs
-- returns have of the ones that it was given.
use trieve.Prelude.{
  ◌∙◌, suc, ◌≤◌, ◌≡◌, ◌≢◌, inl, inr, refl, sym, ap, subst, arith, String, Bool, Option, some, List,
  [], ◌∷◌, map, Bool-cases, Option-cases, length, retain, find, some-injective, none-ne-some,
}
use trieve.Errors.{ServiceError, Result, ok, err, Result-cases, err-ne-ok, ok-injective}
use trieve.Models.{Boost}
use trieve.Enqueue.{ChunkMetadata}
use trieve.Worker.Ingestion.Upload.{Write, Outcome, returned, panicked}
use trieve.Worker.Ingestion.Bulk.Insert.{
  bookmarks, Database, ChunkData, attach_rows, is_row_of, link_chunks, insert_rows, rows_to_insert,
  was_inserted, bulk_insert_chunk_metadata_query, tag_all,
}

-- What a chunk is embedded by.
abbrev pub Texts : Type 0
Texts = (String × Option Boost) × (String × Option Boost)

abbrev pub texts_of : ChunkData → Texts
texts_of item = ((item.embedding_content, item.semantic_boost), (item.content, item.fulltext_boost))

pub cons-injective : {A : Type 0} {x y : A} {xs ys : List A} → x ∷ xs ≡ y ∷ ys → (x ≡ y) × (xs ≡ ys)
cons-injective h = (cc, cc)

pub cons-ne-nil : {A : Type 0} {x : A} {xs : List A} → x ∷ xs ≢ []
cons-ne-nil h = cc

-- The rows come from the database, the texts from the message.
pub attach_rows-texts :
    (rows : List ChunkMetadata) (items out : List ChunkData)
    → attach_rows rows items ≡ some out
    → map texts_of out ≡ map texts_of items
unfolding attach_rows
attach_rows-texts rows [] out h = subst (λ x. map texts_of x ≡ []) (some-injective h) refl
attach_rows-texts rows (item ∷ items) out h = elim (Option-cases (find (is_row_of item) rows)) [
  | inl a ↦ absurd (none-ne-some (rw (attach_rows, a) at h))
  | inr (row, a) ↦ elim (Option-cases (attach_rows rows items)) [
    | inl b ↦ absurd (none-ne-some (rw (attach_rows, a, b) at h))
    | inr (rest, b) ↦
        subst (λ x. map texts_of x ≡ texts_of item ∷ map texts_of items)
          (some-injective (rw (attach_rows, a, b) at h))
          (ap (λ x. texts_of item ∷ x) (attach_rows-texts rows items rest b))
  ]
]

length-texts :
    (out items : List ChunkData) → map texts_of out ≡ map texts_of items → length out ≡ length items
length-texts [] [] h = refl
length-texts [] (i ∷ items) h = absurd (cons-ne-nil (sym h))
length-texts (o ∷ out) [] h = absurd (cons-ne-nil h)
length-texts (o ∷ out) (i ∷ items) h = ap suc (length-texts out items (cons-injective h).1)

length-retain : {A : Type 0} (p : A → Bool) (xs : List A) → length (retain p xs) ≤ length xs
length-retain p [] = omega arith
length-retain p (x ∷ xs) = elim (Bool-cases (p x)) [
  | inl b ↦ rw (b) (omega (arith, length-retain p xs))
  | inr b ↦ rw (b) (omega (arith, length-retain p xs))
]

retain_all :
    {A : Type 0} (p : A → Bool) (xs : List A) → length (retain p xs) ≡ length xs → retain p xs ≡ xs
retain_all p [] h = refl
retain_all p (x ∷ xs) h = elim (Bool-cases (p x)) [
  | inl b ↦ rw (b) (ap (λ ys. x ∷ ys) (retain_all p xs (omega (arith, rw (b) at h))))
  | inr b ↦ absurd (omega (arith, length-retain p xs, rw (b) at h))
]

fail-ne-ok : {A : Type 0} {e : ServiceError} {a : A} → returned (err e) ≢ returned (ok a)
fail-ne-ok h = cc

panic-ne-ok : {A : Type 0} {a : A} → panicked ≢ returned (ok a)
panic-ne-ok h = cc

returned-injective : {A : Type 0} {r : Result A} {a : A} → returned r ≡ returned (ok a) → r ≡ ok a
returned-injective h = cc

abbrev outcome : Outcome (List ChunkData) × List Write → Outcome (List ChunkData)
outcome (o, writes) = o

module _ (database : Database) (items out : List ChunkData) (upsert : Bool)
    (writes after : List Write) where
  link_chunks-same : (made : List ChunkData) → link_chunks database made ≡ ok out → made ≡ out
  unfolding link_chunks
  link_chunks-same made h = elim (Bool-cases (database.insert_bookmarks (bookmarks made))) [
    | inr b ↦ absurd (err-ne-ok (rw (link_chunks, b) at h))
    | inl b ↦ elim (Result-cases (tag_all database made)) [
      | inr (e, c) ↦ absurd (err-ne-ok (rw (link_chunks, b, c) at h))
      | inl (u, c) ↦ ok-injective (rw (link_chunks, b, c) at h)
    ]
  ]

  -- Where as many chunks are returned as were given, they are those, with the rows of the database.
  pub bulk_insert-texts :
      bulk_insert_chunk_metadata_query database items upsert writes ≡ (returned (ok out), after)
      → length out ≡ length items
      → map texts_of out ≡ map texts_of items
  unfolding bulk_insert_chunk_metadata_query
  bulk_insert-texts h l = elim (Result-cases (insert_rows database upsert (rows_to_insert items))) [
    | inr (e, a) ↦ absurd (fail-ne-ok (ap outcome (rw (bulk_insert_chunk_metadata_query, a) at h)))
    | inl (rows, a) ↦
        elim (Option-cases (attach_rows rows (retain (was_inserted upsert rows) items))) [
          | inl b ↦
              absurd (panic-ne-ok (ap outcome (rw (bulk_insert_chunk_metadata_query, a, b) at h)))
          | inr (made, b) ↦
              let made-out = link_chunks-same made (
                returned-injective
                  (ap outcome (rw (bulk_insert_chunk_metadata_query, a, b) at h))) in
              let texts = attach_rows-texts rows (retain (was_inserted upsert rows) items) made b in
              let same = retain_all (was_inserted upsert rows) items (
                sym (length-texts made (retain (was_inserted upsert rows) items) texts)
                ∙ ap length made-out
                ∙ l) in
              subst (λ xs. map texts_of xs ≡ map texts_of items) made-out
                (texts ∙ ap (map texts_of) same)
        ]
  ]
