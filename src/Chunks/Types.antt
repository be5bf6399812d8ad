-- ===== src/Chunks/Types.antt =====
-- server/src/data/models.rs: the forms of a chunk's metadata. A float is a value of a type `F`, the
-- time a number, the JSON of `metadata` its text.
use trieve.Prelude.{ℕ, String, Option, List}
use trieve.Models.{Uuid}

pub record GeoInfo (F : Type 0) : Type 0 where
  pub lat : F
  pub lon : F

pub record ChunkMetadata (F : Type 0) : Type 0 where
  pub id : Uuid
  pub link : Option String
  pub qdrant_point_id : Uuid
  pub created_at : ℕ
  pub updated_at : ℕ
  pub chunk_html : Option String
  pub metadata : Option String
  pub tracking_id : Option String
  pub time_stamp : Option ℕ
  pub dataset_id : Uuid
  pub weight : F
  pub location : Option (GeoInfo F)
  pub image_urls : Option (List (Option String))
  pub tag_set : Option (List (Option String))
  pub num_value : Option F

pub record ChunkMetadataStringTagSet (F : Type 0) : Type 0 where
  pub id : Uuid
  pub link : Option String
  pub qdrant_point_id : Uuid
  pub created_at : ℕ
  pub updated_at : ℕ
  pub chunk_html : Option String
  pub metadata : Option String
  pub tracking_id : Option String
  pub time_stamp : Option ℕ
  pub dataset_id : Uuid
  pub weight : F
  pub location : Option (GeoInfo F)
  pub image_urls : Option (List (Option String))
  pub tag_set : Option String
  pub num_value : Option F

pub record SlimChunkMetadata (F : Type 0) : Type 0 where
  pub id : Uuid
  pub link : Option String
  pub qdrant_point_id : Uuid
  pub created_at : ℕ
  pub updated_at : ℕ
  pub tag_set : Option String
  pub metadata : Option String
  pub tracking_id : Option String
  pub time_stamp : Option ℕ
  pub location : Option (GeoInfo F)
  pub dataset_id : Uuid
  pub weight : F
  pub image_urls : Option (List (Option String))
  pub num_value : Option F

pub record ContentChunkMetadata (F : Type 0) : Type 0 where
  pub id : Uuid
  pub qdrant_point_id : Uuid
  pub chunk_html : Option String
  pub tracking_id : Option String
  pub time_stamp : Option ℕ
  pub weight : F
  pub image_urls : Option (List (Option String))
  pub num_value : Option F

pub data ChunkMetadataTypes (F : Type 0) : Type 0 where
  slim : SlimChunkMetadata F → ChunkMetadataTypes F
  full : ChunkMetadataStringTagSet F → ChunkMetadataTypes F
  content : ContentChunkMetadata F → ChunkMetadataTypes F

pub record ScoreChunkDto (F : Type 0) : Type 0 where
  pub metadata : List (ChunkMetadataTypes F)
  pub highlights : Option (List String)
  pub score : F

-- The clock and a new id, for the fields that a form does not have.
pub record Fresh : Type 0 where
  pub now : ℕ
  pub new_v4 : Uuid
