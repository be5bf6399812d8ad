-- ===== src/Chunks.antt =====
-- server/src/data/models.rs: the forms of a chunk's metadata, and the conversions between them. A
-- float is a value of a type `F`, the time a number, the JSON of `metadata` its text.
pub mod Types
pub mod Tags
pub mod Laws
pub mod Examples
use trieve.Prelude.{
  ℕ, String, str_eq, Option, none, some, List, [], ◌∷◌, map, unwrap_or, if◌then◌else◌,
}
use trieve.Models.{Uuid}
pub use trieve.Chunks.Types.{
  GeoInfo, ChunkMetadata, ChunkMetadataStringTagSet, SlimChunkMetadata, ContentChunkMetadata,
  ChunkMetadataTypes, slim, full, content, ScoreChunkDto, Fresh,
}
use trieve.Chunks.Tags.{split, join, default_text}

-- `tags.split(',').map(|tag| Some(tag.to_string())).collect()`
abbrev pub split_tags : String → List (Option String)
split_tags text = map (λ t. some t) (split text)

abbrev pub join_tags : List (Option String) → String
join_tags tags = join (map default_text tags)

abbrev pub map_option : {A B : Type 0} → (A → B) → Option A → Option B
map_option f none = none
map_option f (some a) = some (f a)

-- The first of the tags is looked at: where it is empty, there are none.
abbrev pub drop_empty : List (Option String) → List (Option String)
drop_empty [] = []
drop_empty (none ∷ tags) = none ∷ tags
drop_empty (some tag ∷ tags) = if str_eq tag "" then [] else some tag ∷ tags

module _ {F : Type 0} where
  unfoldable pub to_string_tag_set : ChunkMetadata F → ChunkMetadataStringTagSet F
  to_string_tag_set chunk = record {
    id = chunk.id;
    link = chunk.link;
    qdrant_point_id = chunk.qdrant_point_id;
    created_at = chunk.created_at;
    updated_at = chunk.updated_at;
    chunk_html = chunk.chunk_html;
    metadata = chunk.metadata;
    tracking_id = chunk.tracking_id;
    time_stamp = chunk.time_stamp;
    dataset_id = chunk.dataset_id;
    weight = chunk.weight;
    location = chunk.location;
    image_urls = chunk.image_urls;
    tag_set = map_option join_tags chunk.tag_set;
    num_value = chunk.num_value;
  }

  unfoldable pub from_string_tag_set : ChunkMetadataStringTagSet F → ChunkMetadata F
  from_string_tag_set chunk = record {
    id = chunk.id;
    link = chunk.link;
    qdrant_point_id = chunk.qdrant_point_id;
    created_at = chunk.created_at;
    updated_at = chunk.updated_at;
    chunk_html = chunk.chunk_html;
    metadata = chunk.metadata;
    tracking_id = chunk.tracking_id;
    time_stamp = chunk.time_stamp;
    dataset_id = chunk.dataset_id;
    weight = chunk.weight;
    location = chunk.location;
    image_urls = chunk.image_urls;
    tag_set = map_option (λ text. drop_empty (split_tags text)) chunk.tag_set;
    num_value = chunk.num_value;
  }

  unfoldable pub to_slim : ChunkMetadata F → SlimChunkMetadata F
  to_slim chunk = record {
    id = chunk.id;
    link = chunk.link;
    qdrant_point_id = chunk.qdrant_point_id;
    created_at = chunk.created_at;
    updated_at = chunk.updated_at;
    tag_set = map_option join_tags chunk.tag_set;
    metadata = chunk.metadata;
    tracking_id = chunk.tracking_id;
    time_stamp = chunk.time_stamp;
    location = chunk.location;
    dataset_id = chunk.dataset_id;
    weight = chunk.weight;
    image_urls = chunk.image_urls;
    num_value = chunk.num_value;
  }

  unfoldable pub from_slim : SlimChunkMetadata F → ChunkMetadata F
  from_slim chunk = record {
    id = chunk.id;
    link = chunk.link;
    qdrant_point_id = chunk.qdrant_point_id;
    created_at = chunk.created_at;
    updated_at = chunk.updated_at;
    chunk_html = some "";
    metadata = chunk.metadata;
    tracking_id = chunk.tracking_id;
    time_stamp = chunk.time_stamp;
    dataset_id = chunk.dataset_id;
    weight = chunk.weight;
    location = chunk.location;
    image_urls = chunk.image_urls;
    tag_set = map_option split_tags chunk.tag_set;
    num_value = chunk.num_value;
  }

  unfoldable pub to_content : ChunkMetadata F → ContentChunkMetadata F
  to_content chunk = record {
    id = chunk.id;
    qdrant_point_id = chunk.qdrant_point_id;
    chunk_html = chunk.chunk_html;
    tracking_id = chunk.tracking_id;
    time_stamp = chunk.time_stamp;
    weight = chunk.weight;
    image_urls = chunk.image_urls;
    num_value = chunk.num_value;
  }

  unfoldable pub from_content : Fresh → ContentChunkMetadata F → ChunkMetadata F
  from_content fresh chunk = record {
    id = chunk.id;
    link = none;
    qdrant_point_id = chunk.qdrant_point_id;
    created_at = fresh.now;
    updated_at = fresh.now;
    chunk_html = chunk.chunk_html;
    metadata = none;
    tracking_id = chunk.tracking_id;
    time_stamp = chunk.time_stamp;
    dataset_id = fresh.new_v4;
    weight = chunk.weight;
    location = none;
    image_urls = chunk.image_urls;
    tag_set = none;
    num_value = chunk.num_value;
  }

  unfoldable pub slim_of_string_tag_set : ChunkMetadataStringTagSet F → SlimChunkMetadata F
  slim_of_string_tag_set chunk = record {
    id = chunk.id;
    link = chunk.link;
    qdrant_point_id = chunk.qdrant_point_id;
    created_at = chunk.created_at;
    updated_at = chunk.updated_at;
    tag_set = chunk.tag_set;
    metadata = chunk.metadata;
    tracking_id = chunk.tracking_id;
    time_stamp = chunk.time_stamp;
    location = chunk.location;
    dataset_id = chunk.dataset_id;
    weight = chunk.weight;
    image_urls = chunk.image_urls;
    num_value = chunk.num_value;
  }

  unfoldable pub slim_of_content : Fresh → ContentChunkMetadata F → SlimChunkMetadata F
  slim_of_content fresh chunk = record {
    id = chunk.id;
    link = none;
    qdrant_point_id = chunk.qdrant_point_id;
    created_at = fresh.now;
    updated_at = fresh.now;
    tag_set = none;
    metadata = none;
    tracking_id = chunk.tracking_id;
    time_stamp = none;
    location = none;
    dataset_id = fresh.new_v4;
    weight = chunk.weight;
    image_urls = chunk.image_urls;
    num_value = chunk.num_value;
  }

  -- `ChunkMetadataTypes::metadata`, which is also its conversion into a `ChunkMetadata`.
  unfoldable pub metadata_of : Fresh → ChunkMetadataTypes F → ChunkMetadata F
  metadata_of fresh (slim chunk) = from_slim chunk
  metadata_of fresh (full chunk) = from_string_tag_set chunk
  metadata_of fresh (content chunk) = from_content fresh chunk

  abbrev pub slim_types : Fresh → ChunkMetadataTypes F → ChunkMetadataTypes F
  slim_types fresh (slim chunk) = slim chunk
  slim_types fresh (full chunk) = slim (slim_of_string_tag_set chunk)
  slim_types fresh (content chunk) = slim (slim_of_content fresh chunk)

  -- `ScoreChunkDTO::slim`
  unfoldable pub slim_dto : Fresh → ScoreChunkDto F → ScoreChunkDto F
  slim_dto fresh dto = record dto { metadata = map (slim_types fresh) dto.metadata }
