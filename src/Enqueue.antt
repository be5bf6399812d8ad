-- ===== src/Enqueue.antt =====
-- How chunks get into the ingestion queue: create_chunk of server/src/handlers/chunk_handler.rs and
-- create_chunk_metadata of server/src/operators/chunk_operator.rs.
pub mod Unique
pub mod Metadata
pub mod Handler
pub mod Limits
pub mod Examples
use Prim.Native.String.{◌++◌ as str_append}
use trieve.Prelude.{
  ℕ, zero, suc, ◌+◌, ◌-◌, ◌%◌, ◌^◌, String, str_eq, Bool, true, false, Option, none, some, List, [],
  ◌∷◌, ◌++◌, map, ◌==◌, ltb, not, any, find, retain, is_empty, is_some, unwrap_or, length,
  if◌then◌else◌, ℤ, pos, negsuc,
}
use trieve.Errors.{ServiceError, bad_request, payload_too_large, Result, ok, err, ◌>>=◌, ok_or}
use trieve.Models.{Uuid, ChunkReqPayload, UploadIngestionMessage, BulkUploadIngestionMessage}
use trieve.Redis.{Call, applied, reply}

-- The times are microseconds, and `rest` is the text of the fields that are only passed on.
pub record ChunkMetadata : Type 0 where
  pub id : Uuid
  pub qdrant_point_id : Uuid
  pub created_at : ℕ
  pub updated_at : ℕ
  pub dataset_id : Uuid
  pub chunk_html : Option String
  pub tag_set : Option (List (Option String))
  pub tracking_id : Option String
  pub time_stamp : Option String
  pub rest : String

-- The database and the libraries. `fresh n` has the id and the point id of the n-th chunk.
pub record Services : Type 0 where
  pub fresh : ℕ → Uuid × Uuid
  -- what the clock reads when the row of the chunk with this id is made, twice
  pub now : Uuid → ℕ × ℕ
  -- a time stamp as local time
  pub parse_time : String → Option String
  pub uuid_to_string : Uuid → String
  pub check_group_ids_exist : List Uuid → Uuid → Result (List Uuid)
  pub get_group_ids_from_tracking_ids : List String → Uuid → Result (List (Uuid × Option String))

abbrev pub contains : List Uuid → Uuid → Bool
contains ids id = any (λ x. x == id) ids

abbrev pub contains_text : List String → String → Bool
contains_text texts text = any (λ x. str_eq x text) texts

-- `filter(|tracking_id| !tracking_id.is_empty())`
abbrev pub non_empty : Option String → Option String
non_empty none = none
non_empty (some text) = if str_eq text "" then none else some text

-- `unique()`: the first of equal ones stays.
abbrev pub unique : List Uuid → List Uuid
unique [] = []
unique (x ∷ xs) = x ∷ retain (λ y. not (y == x)) (unique xs)

abbrev pub group_tracking_ids_of : List (Uuid × Option String) → List String
group_tracking_ids_of [] = []
group_tracking_ids_of ((id, none) ∷ gs) = group_tracking_ids_of gs
group_tracking_ids_of ((id, some text) ∷ gs) = text ∷ group_tracking_ids_of gs

module _ (services : Services) (dataset : Uuid) where
  unfoldable pub parse_time_stamp : Option String → Result (Option String)
  parse_time_stamp none = ok none
  parse_time_stamp (some text) = do
    time ← ok_or (services.parse_time text) (bad_request "Invalid timestamp format")
    ok (some time)

  -- `if !existent_group_ids.contains(&group_id)`, for each group.
  unfoldable pub all_exist : List Uuid → List Uuid → Result (Unit {0})
  all_exist existent [] = ok tt
  all_exist existent (id ∷ ids) =
      let rest = all_exist existent ids in
      if contains existent id
      then rest
      else err (
          bad_request (
            str_append "Group with id "
              (str_append (services.uuid_to_string id) " does not exist")))

  unfoldable pub check_group_ids : Option (List Uuid) → Result (Unit {0})
  check_group_ids none = ok tt
  check_group_ids (some ids) = do
    existent ← services.check_group_ids_exist ids dataset
    all_exist existent ids

  unfoldable pub all_found : List String → List String → Result (Unit {0})
  all_found found [] = ok tt
  all_found found (text ∷ texts) =
      let rest = all_found found texts in
      if contains_text found text
      then rest
      else err
          (bad_request (str_append "Group with tracking id " (str_append text " does not exist")))

  unfoldable pub ids_from_tracking_ids : Option (List String) → Result (List Uuid)
  ids_from_tracking_ids none = ok []
  ids_from_tracking_ids (some texts) = do
    groups ← services.get_group_ids_from_tracking_ids texts dataset
    _ ← all_found (group_tracking_ids_of groups) texts
    ok (map (λ g. g.0) groups)

  abbrev pub metadata_of : ℕ → Option String → ChunkReqPayload → ChunkMetadata
  metadata_of n time chunk = record {
    id = (services.fresh n).0;
    qdrant_point_id = (services.fresh n).1;
    created_at = (services.now (services.fresh n).0).0;
    updated_at = (services.now (services.fresh n).0).1;
    dataset_id = dataset;
    chunk_html = chunk.chunk_html;
    tag_set = elim chunk.tag_set [ none ↦ none | some tags ↦ some (map (λ t. some t) tags) ];
    tracking_id = non_empty chunk.tracking_id;
    time_stamp = time;
    rest = chunk.rest;
  }

  abbrev pub message_of : ℕ → List Uuid → ChunkReqPayload → UploadIngestionMessage
  message_of n groups chunk = record {
    id = (services.fresh n).0;
    qdrant_point_id = (services.fresh n).1;
    chunk = record chunk { group_ids = some groups; group_tracking_ids = none };
    dataset_id = dataset;
    upsert_by_tracking_id = unwrap_or chunk.upsert_by_tracking_id false;
  }

  -- The body of the loop: the n-th chunk.
  unfoldable pub ingest_one : ℕ → ChunkReqPayload → Result (UploadIngestionMessage × ChunkMetadata)
  ingest_one n chunk = do
    time ← parse_time_stamp chunk.time_stamp
    _ ← check_group_ids chunk.group_ids
    from_tracking_ids ← ids_from_tracking_ids chunk.group_tracking_ids
    let groups = unique (from_tracking_ids ++ unwrap_or chunk.group_ids [])
    ok (message_of n groups chunk, metadata_of n time chunk)

  unfoldable pub create_chunk_metadata :
      ℕ → List ChunkReqPayload → Result (List UploadIngestionMessage × List ChunkMetadata)
  create_chunk_metadata n [] = ok ([], [])
  create_chunk_metadata n (chunk ∷ chunks) = do
    (message, metadata) ← ingest_one n chunk
    (messages, metadatas) ← create_chunk_metadata (suc n) chunks
    ok (message ∷ messages, metadata ∷ metadatas)
