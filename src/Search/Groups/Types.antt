-- ===== src/Search/Groups/Types.antt =====
-- The requests and the results of a search over groups: SearchOverGroupsReqPayload of
-- server/src/handlers/group_handler.rs, GroupSearchResults of server/src/operators/qdrant_operator.rs,
-- ChunkGroupAndFileId of server/src/data/models.rs and GroupScoreChunk of
-- server/src/operators/search_operator.rs.
use trieve.Prelude.{ℕ, String, Bool, Option, List}
use trieve.Models.{Uuid}
use trieve.Chunks.{ScoreChunkDto}
use trieve.Search.Retrieve.{SearchResult, HighlightOptions}

pub record GroupSearchResults (F : Type 0) : Type 0 where
  pub group_id : Uuid
  pub hits : List (SearchResult F)

pub record ChunkGroupAndFileId : Type 0 where
  pub id : Uuid
  pub dataset_id : Uuid
  pub name : String
  pub description : String
  pub tracking_id : Option String
  pub tag_set : Option (List (Option String))
  pub metadata : Option String
  pub file_id : Option Uuid
  pub created_at : ℕ
  pub updated_at : ℕ

pub record GroupScoreChunk (F : Type 0) : Type 0 where
  pub group_id : Uuid
  pub group_name : Option String
  pub group_description : Option String
  pub group_created_at : ℕ
  pub group_updated_at : ℕ
  pub group_tracking_id : Option String
  pub group_metadata : Option String
  pub group_tag_set : Option (List (Option String))
  pub group_dataset_id : Uuid
  pub metadata : List (ScoreChunkDto F)
  pub file_id : Option Uuid

-- As far as it is read after the vector store has answered. `query` is the text of a single query.
pub record SearchOverGroupsRequest (F : Type 0) : Type 0 where
  pub query : Option String
  pub is_hybrid : Bool
  pub slim_chunks : Option Bool
  pub highlight_options : Option HighlightOptions
  pub page_size : Option ℕ
  pub score_threshold : Option F
