-- ===== src/Enqueue/Metadata.antt =====
-- The messages and the answers that create_chunk_metadata of
-- server/src/operators/chunk_operator.rs makes of the chunks of a request.
use trieve.Prelude.{
  ℕ, suc, ◌≡◌, inl, inr, refl, sym, map, true, subst, String, Option, none, some, List, [], ◌∷◌,
  ◌++◌, unwrap_or, Bool-cases,
}
use trieve.Errors.{ServiceError, Result, ok, err, ◌>>=◌, ok-injective}
use trieve.Models.{Uuid, ChunkReqPayload, UploadIngestionMessage}
use trieve.Enqueue.{
  ChunkMetadata, Services, contains, unique, parse_time_stamp, check_group_ids, all_exist,
  ids_from_tracking_ids, all_found, contains_text, group_tracking_ids_of, metadata_of, message_of,
  ingest_one, create_chunk_metadata,
}
use trieve.Enqueue.Unique.{
  AllIn, Distinct, unique-Distinct, unique-contains, contains-append, append-contains,
  contains-unique, all_in,
}

-- A chain that went through: the value of its first step, and the rest on it.
pub chain_ok :
    {A B : Type 0} (m : Result A) (f : A → Result B) (b : B)
    → (m >>= f) ≡ ok b
    → (a : A) × (m ≡ ok a) × (f a ≡ ok b)
chain_ok (err e) f b h = cc
chain_ok (ok a) f b h = (a, refl, h)

pub unit_err : {A : Type 0} {e : ServiceError} {a : A} → err e ≡ ok a → ⊥
unit_err h = cc

-- The database knows the groups that the chunk names by their ids.
abbrev pub GroupsExist : Services → Uuid → Option (List Uuid) → Type 0
GroupsExist services dataset none = Unit {0}
GroupsExist services dataset (some ids) =
    (existent : List Uuid) × (services.check_group_ids_exist ids dataset ≡ ok existent)
    × AllIn ids existent

abbrev pub AllTextsIn : List String → List String → Type 0
AllTextsIn [] found = Unit {0}
AllTextsIn (text ∷ texts) found = (contains_text found text ≡ true) × AllTextsIn texts found

-- The database finds all the groups that the chunk names by tracking ids, and `from` are the ids that it
-- finds for them.
abbrev pub GroupsFound : Services → Uuid → Option (List String) → List Uuid → Type 0
GroupsFound services dataset none from = from ≡ []
GroupsFound services dataset (some texts) from =
    (found : List (Uuid × Option String)) × (services.get_group_ids_from_tracking_ids texts dataset
      ≡ ok found)
    × AllTextsIn texts (group_tracking_ids_of found)
    × (from ≡ map (λ g. g.0) found)

-- A message and an answer are those of a chunk: they share their ids, and the message has the groups
-- of the chunk and no others, each once, by their ids only, also those that the chunk names by tracking
-- ids.
abbrev pub Matches :
    Services → Uuid → ChunkReqPayload → UploadIngestionMessage → ChunkMetadata → Type 0
Matches services dataset chunk message metadata =
    (message.id ≡ metadata.id)
    × (message.qdrant_point_id ≡ metadata.qdrant_point_id)
    × (message.chunk.chunk_html ≡ chunk.chunk_html)
    × (message.chunk.group_tracking_ids ≡ none)
    × GroupsExist services dataset chunk.group_ids
    × (groups from : List Uuid) × (message.chunk.group_ids ≡ some groups)
    × Distinct groups
    × GroupsFound services dataset chunk.group_tracking_ids from
    × AllIn (unwrap_or chunk.group_ids []) groups
    × AllIn from groups
    × AllIn groups (from ++ unwrap_or chunk.group_ids [])

abbrev pub AllMatch :
    Services
    → Uuid
    → List ChunkReqPayload
    → List UploadIngestionMessage
    → List ChunkMetadata
    → Type 0
AllMatch services dataset [] [] [] = Unit {0}
AllMatch services dataset (chunk ∷ chunks) (message ∷ messages) (metadata ∷ metadatas) =
    Matches services dataset chunk message metadata
    × AllMatch services dataset chunks messages metadatas
AllMatch services dataset _ _ _ = ⊥

module _ (services : Services) (dataset : Uuid) where
  all_exist_sound :
      (existent ids : List Uuid)
      → all_exist services dataset existent ids ≡ ok tt
      → AllIn ids existent
  unfolding all_exist
  all_exist_sound existent [] h = tt
  all_exist_sound existent (id ∷ ids) h = elim (Bool-cases (contains existent id)) [
    | inl t ↦ (t, all_exist_sound existent ids (rw t at h))
    | inr t ↦ absurd (unit_err (rw t at h))
  ]

  check_group_ids_sound :
      (ids : Option (List Uuid))
      → check_group_ids services dataset ids ≡ ok tt
      → GroupsExist services dataset ids
  unfolding check_group_ids
  check_group_ids_sound none h = tt
  check_group_ids_sound (some ids) h =
      let (existent, e, r) = chain_ok (services.check_group_ids_exist ids dataset) _ tt h in
      (existent, e, all_exist_sound existent ids r)

  all_found_sound :
      (found texts : List String)
      → all_found services dataset found texts ≡ ok tt
      → AllTextsIn texts found
  unfolding all_found
  all_found_sound found [] h = tt
  all_found_sound found (text ∷ texts) h = elim (Bool-cases (contains_text found text)) [
    | inl t ↦ (t, all_found_sound found texts (rw t at h))
    | inr t ↦ absurd (unit_err (rw t at h))
  ]

  ids_from_tracking_ids-GroupsFound :
      (texts : Option (List String)) (from : List Uuid)
      → ids_from_tracking_ids services dataset texts ≡ ok from
      → GroupsFound services dataset texts from
  unfolding ids_from_tracking_ids
  ids_from_tracking_ids-GroupsFound none from h = sym (ok-injective h)
  ids_from_tracking_ids-GroupsFound (some texts) from h =
      let (found, a, f) =
        chain_ok (services.get_group_ids_from_tracking_ids texts dataset) _ from h in
      let (u, b, g) =
        chain_ok (all_found services dataset (group_tracking_ids_of found) texts) _ from f in
      (found, a, all_found_sound (group_tracking_ids_of found) texts b, sym (ok-injective g))

  message_of-Matches :
      (n : ℕ) (time : Option String) (from : List Uuid) (chunk : ChunkReqPayload)
      → GroupsExist services dataset chunk.group_ids
      → ids_from_tracking_ids services dataset chunk.group_tracking_ids ≡ ok from
      → Matches services dataset chunk
          (message_of services dataset n (unique (from ++ unwrap_or chunk.group_ids [])) chunk)
          (metadata_of services dataset n time chunk)
  message_of-Matches n time from chunk exist found =
      let requested = unwrap_or chunk.group_ids [] in
      (
        refl,
        refl,
        refl,
        refl,
        exist,
        unique (from ++ requested),
        from,
        refl,
        unique-Distinct (from ++ requested),
        ids_from_tracking_ids-GroupsFound chunk.group_tracking_ids from found,
        all_in requested (unique (from ++ requested))
            (λ y h. unique-contains (from ++ requested) y (contains-append from requested y h)),
        all_in from (unique (from ++ requested))
            (λ y h. unique-contains (from ++ requested) y (append-contains from requested y h)),
        all_in (unique (from ++ requested)) (from ++ requested)
            (contains-unique (from ++ requested)),
      )

  ingest_one-Matches :
      (n : ℕ) (chunk : ChunkReqPayload) (message : UploadIngestionMessage)
      (metadata : ChunkMetadata)
      → ingest_one services dataset n chunk ≡ ok (message, metadata)
      → Matches services dataset chunk message metadata
  unfolding ingest_one
  ingest_one-Matches n chunk message metadata h =
      let (time, a, f) =
        chain_ok (parse_time_stamp services dataset chunk.time_stamp) _ (message, metadata) h in
      let (u, b, g) =
        chain_ok (check_group_ids services dataset chunk.group_ids) _ (message, metadata) f in
      let (from, c, k) =
        chain_ok (ids_from_tracking_ids services dataset chunk.group_tracking_ids) _
          (message, metadata) g in
      subst (λ (p : UploadIngestionMessage × ChunkMetadata). Matches services dataset chunk p.0 p.1)
        (ok-injective k)
        (message_of-Matches n time from chunk (check_group_ids_sound chunk.group_ids b) c)

  -- If the chunks of a request are accepted, then each gets one message and one answer, in the order
  -- of the chunks and with the same ids, and the message names the groups of its chunk by their ids,
  -- each of them once and no others: those that it names by ids, which exist in the dataset, and those
  -- that the database finds for its tracking ids, each of which it finds.
  pub create_chunk_metadata-AllMatch :
      (n : ℕ) (chunks : List ChunkReqPayload) (messages : List UploadIngestionMessage)
      (metadatas : List ChunkMetadata)
      → create_chunk_metadata services dataset n chunks ≡ ok (messages, metadatas)
      → AllMatch services dataset chunks messages metadatas
  unfolding create_chunk_metadata
  create_chunk_metadata-AllMatch n [] messages metadatas h =
      subst
        (λ (p : List UploadIngestionMessage × List ChunkMetadata).
          AllMatch services dataset [] p.0 p.1)
        (ok-injective h) tt
  create_chunk_metadata-AllMatch n (chunk ∷ chunks) messages metadatas h =
      let ((m, d), a, f) =
        chain_ok (ingest_one services dataset n chunk) _ (messages, metadatas) h in
      let ((ms, ds), b, g) =
        chain_ok (create_chunk_metadata services dataset (suc n) chunks) _ (messages, metadatas)
          f in
      subst
        (λ (p : List UploadIngestionMessage × List ChunkMetadata).
          AllMatch services dataset (chunk ∷ chunks) p.0 p.1)
        (ok-injective g)
        (ingest_one-Matches n chunk m d a, create_chunk_metadata-AllMatch (suc n) chunks ms ds b)
