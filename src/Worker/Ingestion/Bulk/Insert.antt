-- ===== src/Worker/Ingestion/Bulk/Insert.antt =====
-- bulk_insert_chunk_metadata_query of server/src/operators/chunk_operator.rs. The database answers an
-- insert with the rows that it has written.
use trieve.Prelude.{
  String, str_eq, Bool, true, false, Option, none, some, List, [], ◌∷◌, ◌++◌, map, ◌==◌, ◌&&◌, ◌||◌,
  not, any, find, retain, is_some, if◌then◌else◌,
}
use trieve.Errors.{bad_request, Result, ok, err}
use trieve.Models.{Uuid, Boost}
use trieve.Enqueue.{ChunkMetadata}
use trieve.Worker.Ingestion.Upload.{Write, inserted, Outcome, returned, panicked}

-- `ChunkDataWithEmbeddingText` of the worker, and `ChunkData` with the text to embed.
pub record ChunkData : Type 0 where
  pub chunk_metadata : ChunkMetadata
  pub content : String
  pub embedding_content : String
  pub group_ids : Option (List Uuid)
  pub fulltext_boost : Option Boost
  pub semantic_boost : Option Boost

pub record Database : Type 0 where
  -- `INSERT .. ON CONFLICT DO NOTHING` and `.. DO UPDATE`, returning the rows
  pub insert_or_nothing : List ChunkMetadata → Option (List ChunkMetadata)
  pub insert_or_update : List ChunkMetadata → Option (List ChunkMetadata)
  pub insert_bookmarks : List (Uuid × Uuid) → Bool
  -- the tags of one chunk: into the tags of the dataset, and those of the chunk
  pub insert_tags : List String → Uuid → Result (Unit {0})

abbrev pub same_text : Option String → Option String → Bool
same_text none none = true
same_text (some a) (some b) = str_eq a b
same_text _ _ = false

abbrev pub with_tracking_id : List ChunkData → List ChunkMetadata
with_tracking_id datas =
    retain (λ row. is_some row.tracking_id) (map (λ item. item.chunk_metadata) datas)

abbrev pub without_tracking_id : List ChunkData → List ChunkMetadata
without_tracking_id datas =
    retain (λ row. not (is_some row.tracking_id)) (map (λ item. item.chunk_metadata) datas)

-- `unique_by(|chunk| (chunk.tracking_id.clone(), chunk.dataset_id))`: the first of equal ones stays.
unfoldable pub unique_rows : List ChunkMetadata → List ChunkMetadata
unique_rows [] = []
unique_rows (row ∷ rows) =
    row
    ∷ retain
        (λ other.
          not (same_text other.tracking_id row.tracking_id && (other.dataset_id == row.dataset_id)))
        (unique_rows rows)

unfoldable pub rows_to_insert : List ChunkData → List ChunkMetadata
rows_to_insert datas = without_tracking_id datas ++ unique_rows (with_tracking_id datas)

abbrev pub same_id : ChunkData → ChunkMetadata → Bool
same_id item row = row.id == item.chunk_metadata.id

-- The two `retain`s.
unfoldable pub was_inserted : Bool → List ChunkMetadata → ChunkData → Bool
was_inserted true rows item =
    any (λ row. same_id item row || same_text row.tracking_id item.chunk_metadata.tracking_id) rows
was_inserted false rows item = any (same_id item) rows

abbrev pub real_text : Option String → Bool
real_text none = false
real_text (some text) = not (str_eq text "")

abbrev pub is_row_of : ChunkData → ChunkMetadata → Bool
is_row_of item row =
    same_id item row
    || (real_text row.tracking_id && same_text row.tracking_id item.chunk_metadata.tracking_id)

abbrev pub present_tags : Option (List (Option String)) → List String
present_tags none = []
present_tags (some []) = []
present_tags (some (none ∷ tags)) = present_tags (some tags)
present_tags (some (some tag ∷ tags)) = tag ∷ present_tags (some tags)

-- The row of the database, with the tags of the message.
abbrev pub with_row : ChunkData → ChunkMetadata → ChunkData
with_row item row = record item {
  chunk_metadata = record row {
    tag_set = some (map (λ t. some t) (present_tags item.chunk_metadata.tag_set));
  };
}

-- `find(..).expect(..)` for each chunk.
unfoldable pub attach_rows : List ChunkMetadata → List ChunkData → Option (List ChunkData)
attach_rows rows [] = some []
attach_rows rows (item ∷ datas) = elim (find (is_row_of item) rows) [
  | none ↦ none
  | some row ↦ elim (attach_rows rows datas) [
    | none ↦ none
    | some rest ↦ some (with_row item row ∷ rest)
  ]
]

abbrev pub bookmarks : List ChunkData → List (Uuid × Uuid)
bookmarks [] = []
bookmarks (item ∷ datas) = elim item.group_ids [
  | none ↦ bookmarks datas
  | some ids ↦ map (λ id. (id, item.chunk_metadata.id)) ids ++ bookmarks datas
]

module _ (database : Database) where
  abbrev pub insert_rows : Bool → List ChunkMetadata → Result (List ChunkMetadata)
  insert_rows true rows = elim (database.insert_or_update rows) [
    | none ↦ err (bad_request "Failed to upsert chunk_metadata")
    | some written ↦ ok written
  ]
  insert_rows false rows = elim (database.insert_or_nothing rows) [
    | none ↦ err (bad_request "Failed to insert chunk_metadata")
    | some written ↦ ok written
  ]

  unfoldable pub tag_all : List ChunkData → Result (Unit {0})
  tag_all [] = ok tt
  tag_all (item ∷ datas) =
      elim (database.insert_tags (present_tags item.chunk_metadata.tag_set)
        item.chunk_metadata.id) [ err e ↦ err e | ok _ ↦ tag_all datas ]

  unfoldable pub link_chunks : List ChunkData → Result (List ChunkData)
  link_chunks datas =
      if database.insert_bookmarks (bookmarks datas)
      then (elim (tag_all datas) [ err e ↦ err e | ok _ ↦ ok datas ])
      else err (bad_request "Failed to insert chunk into groups")

  abbrev pub finish_insert : Option (List ChunkData) → Outcome (List ChunkData)
  finish_insert none = panicked
  finish_insert (some datas) = returned (link_chunks datas)

  unfoldable pub bulk_insert_chunk_metadata_query :
      List ChunkData → Bool → List Write → Outcome (List ChunkData) × List Write
  bulk_insert_chunk_metadata_query datas upsert writes =
      elim (insert_rows upsert (rows_to_insert datas)) [
        | err e ↦ (returned (err e), writes)
        | ok rows ↦ (
          finish_insert (attach_rows rows (retain (was_inserted upsert rows) datas)),
          map (λ row. inserted row.id) rows ++ writes,
        )
      ]
