-- ===== src/Dataset/Types.antt =====
-- DatasetConfiguration of server/src/data/models.rs: the settings of a data set, and the JSON that
-- the database keeps them as. A float is a value of a type `F`,
-- whose values JSON can all write: none is infinite, and each is a number.
use trieve.Prelude.{ℕ, String, Bool, Option, List}

pub data DistanceMetric : Type 0 where
  euclidean cosine manhattan dot : DistanceMetric

pub record DatasetConfiguration (F : Type 0) : Type 0 where
  pub llm_base_url : String
  pub llm_api_key : String
  pub embedding_base_url : String
  pub embedding_model_name : String
  pub reranker_base_url : String
  pub message_to_query_prompt : String
  pub rag_prompt : String
  pub n_retrievals_to_include : ℕ
  pub embedding_size : ℕ
  pub distance_metric : DistanceMetric
  pub llm_default_model : String
  pub bm25_enabled : Bool
  pub bm25_b : F
  pub bm25_k : F
  pub bm25_avg_len : F
  pub fulltext_enabled : Bool
  pub semantic_enabled : Bool
  pub embedding_query_prefix : String
  pub use_message_to_query_prompt : Bool
  pub frequency_penalty : Option F
  pub temperature : Option F
  pub presence_penalty : Option F
  pub max_tokens : Option ℕ
  pub stop_tokens : Option (List String)
  pub indexed_only : Bool
  pub locked : Bool
  pub system_prompt : String
  pub max_limit : ℕ

-- `DatasetConfigurationDTO`: what a request may leave out.
pub record DatasetConfigurationDto (F : Type 0) : Type 0 where
  pub llm_base_url : Option String
  pub llm_api_key : Option String
  pub embedding_base_url : Option String
  pub embedding_model_name : Option String
  pub reranker_base_url : Option String
  pub message_to_query_prompt : Option String
  pub rag_prompt : Option String
  pub n_retrievals_to_include : Option ℕ
  pub embedding_size : Option ℕ
  pub distance_metric : Option DistanceMetric
  pub llm_default_model : Option String
  pub bm25_enabled : Option Bool
  pub bm25_b : Option F
  pub bm25_k : Option F
  pub bm25_avg_len : Option F
  pub fulltext_enabled : Option Bool
  pub semantic_enabled : Option Bool
  pub embedding_query_prefix : Option String
  pub use_message_to_query_prompt : Option Bool
  pub frequency_penalty : Option F
  pub temperature : Option F
  pub presence_penalty : Option F
  pub max_tokens : Option ℕ
  pub stop_tokens : Option (List String)
  pub indexed_only : Option Bool
  pub locked : Option Bool
  pub system_prompt : Option String
  pub max_limit : Option ℕ

-- `serde_json::Value`, as far as it is told apart in a field of a configuration: the other arrays and
-- the objects are `other_value`, with their text.
pub data Value (F : Type 0) : Type 0 where
  null : Value F
  boolean : Bool → Value F
  natural : ℕ → Value F
  number : F → Value F
  text_value : String → Value F
  texts : List String → Value F
  other_value : String → Value F

-- The whole configuration: an object, or something else.
pub data Json (F : Type 0) : Type 0 where
  object : List (String × Value F) → Json F
  no_object : Value F → Json F

-- What the program is built and started with.
pub record Environment : Type 0 where
  pub openai_base_url : String
  pub reranker_server_origin : String
  pub bm25_active : Option String

-- The floats that the source writes down, and `as f64` of a natural number.
pub record Literals (F : Type 0) : Type 0 where
  pub three_quarters : F
  pub one_point_two : F
  pub two_hundred_fifty_six : F
  pub to_float : ℕ → F
