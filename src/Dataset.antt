-- ===== src/Dataset.antt =====
-- The settings of a data set: the conversions of DatasetConfiguration and its DTO in
-- server/src/data/models.rs, and the JSON that is kept in the database.
pub mod Types
pub mod Json
pub mod Laws
pub mod Examples
use trieve.Prelude.{ℕ, String, Bool, true, false, Option, none, some, List, unwrap_or}
pub use trieve.Dataset.Types.{
  DistanceMetric, euclidean, cosine, manhattan, dot, DatasetConfiguration, DatasetConfigurationDto,
  Literals, Environment,
}

abbrev pub default_message_to_query_prompt : String
default_message_to_query_prompt =
    "Write a 1-2 sentence semantic search query along the lines of a hypothetical response to: \n\n"

abbrev pub default_rag_prompt : String
default_rag_prompt =
    "Use the following retrieved documents in your response. Include footnotes in the format of the document number that you used for a sentence in square brackets at the end of the sentences like [^n] where n is the doc number. These are the docs:"

-- `option.or(other)`
abbrev pub or_else {ℓ} : {A : Type ℓ} → Option A → Option A → Option A
or_else none other = other
or_else (some a) other = some a

module _ {F : Type 0} (literals : Literals F) where
  unfoldable pub from_dto : DatasetConfigurationDto F → DatasetConfiguration F
  from_dto dto = record {
    llm_base_url = unwrap_or dto.llm_base_url "https://api.openai.com/v1";
    llm_api_key = unwrap_or dto.llm_api_key "";
    embedding_base_url = unwrap_or dto.embedding_base_url "https://api.openai.com/v1";
    embedding_model_name = unwrap_or dto.embedding_model_name "text-embedding-3-small";
    reranker_base_url = unwrap_or dto.reranker_base_url "";
    message_to_query_prompt = unwrap_or dto.message_to_query_prompt default_message_to_query_prompt;
    rag_prompt = unwrap_or dto.rag_prompt default_rag_prompt;
    n_retrievals_to_include = unwrap_or dto.n_retrievals_to_include 8;
    embedding_size = unwrap_or dto.embedding_size 1536;
    distance_metric = unwrap_or dto.distance_metric cosine;
    llm_default_model = unwrap_or dto.llm_default_model "gpt-3.5-turbo-1106";
    bm25_enabled = unwrap_or dto.bm25_enabled true;
    bm25_b = unwrap_or dto.bm25_b literals.three_quarters;
    bm25_k = unwrap_or dto.bm25_k literals.three_quarters;
    bm25_avg_len = unwrap_or dto.bm25_avg_len literals.two_hundred_fifty_six;
    fulltext_enabled = unwrap_or dto.fulltext_enabled true;
    semantic_enabled = unwrap_or dto.semantic_enabled true;
    embedding_query_prefix = unwrap_or dto.embedding_query_prefix "";
    use_message_to_query_prompt = unwrap_or dto.use_message_to_query_prompt false;
    frequency_penalty = dto.frequency_penalty;
    temperature = dto.temperature;
    presence_penalty = dto.presence_penalty;
    max_tokens = dto.max_tokens;
    stop_tokens = dto.stop_tokens;
    indexed_only = unwrap_or dto.indexed_only false;
    locked = unwrap_or dto.locked false;
    system_prompt = unwrap_or dto.system_prompt "You are a helpful assistant";
    max_limit = unwrap_or dto.max_limit 10000;
  }

  -- `DatasetConfiguration::default`
  unfoldable pub default : DatasetConfiguration F
  default = record {
    llm_base_url = "https://api.openai.com/v1";
    llm_api_key = "";
    embedding_base_url = "https://api.openai.com/v1";
    embedding_model_name = "text-embedding-3-small";
    reranker_base_url = "";
    message_to_query_prompt = default_message_to_query_prompt;
    rag_prompt = default_rag_prompt;
    n_retrievals_to_include = 8;
    embedding_size = 1536;
    distance_metric = cosine;
    llm_default_model = "gpt-3.5-turbo-1106";
    bm25_enabled = true;
    bm25_b = literals.three_quarters;
    bm25_k = literals.three_quarters;
    bm25_avg_len = literals.two_hundred_fifty_six;
    fulltext_enabled = true;
    semantic_enabled = true;
    embedding_query_prefix = "";
    use_message_to_query_prompt = false;
    frequency_penalty = none;
    temperature = none;
    presence_penalty = none;
    max_tokens = none;
    stop_tokens = none;
    indexed_only = false;
    locked = false;
    system_prompt = "You are a helpful assistant";
    max_limit = 10000;
  }

module _ {F : Type 0} where
  unfoldable pub to_dto : DatasetConfiguration F → DatasetConfigurationDto F
  to_dto config = record {
    llm_base_url = some config.llm_base_url;
    llm_api_key = some config.llm_api_key;
    embedding_base_url = some config.embedding_base_url;
    embedding_model_name = some config.embedding_model_name;
    reranker_base_url = some config.reranker_base_url;
    message_to_query_prompt = some config.message_to_query_prompt;
    rag_prompt = some config.rag_prompt;
    n_retrievals_to_include = some config.n_retrievals_to_include;
    embedding_size = some config.embedding_size;
    distance_metric = some config.distance_metric;
    llm_default_model = some config.llm_default_model;
    bm25_enabled = some config.bm25_enabled;
    bm25_b = some config.bm25_b;
    bm25_k = some config.bm25_k;
    bm25_avg_len = some config.bm25_avg_len;
    fulltext_enabled = some config.fulltext_enabled;
    semantic_enabled = some config.semantic_enabled;
    embedding_query_prefix = some config.embedding_query_prefix;
    use_message_to_query_prompt = some config.use_message_to_query_prompt;
    frequency_penalty = config.frequency_penalty;
    temperature = config.temperature;
    presence_penalty = config.presence_penalty;
    max_tokens = config.max_tokens;
    stop_tokens = config.stop_tokens;
    indexed_only = some config.indexed_only;
    locked = some config.locked;
    system_prompt = some config.system_prompt;
    max_limit = some config.max_limit;
  }

  unfoldable pub from_curr_dataset :
      DatasetConfigurationDto F → DatasetConfiguration F → DatasetConfiguration F
  from_curr_dataset dto current = record {
    llm_base_url = unwrap_or dto.llm_base_url current.llm_base_url;
    llm_api_key = unwrap_or dto.llm_api_key current.llm_api_key;
    embedding_base_url = unwrap_or dto.embedding_base_url current.embedding_base_url;
    embedding_model_name = unwrap_or dto.embedding_model_name current.embedding_model_name;
    reranker_base_url = unwrap_or dto.reranker_base_url current.reranker_base_url;
    message_to_query_prompt = unwrap_or dto.message_to_query_prompt current.message_to_query_prompt;
    rag_prompt = unwrap_or dto.rag_prompt current.rag_prompt;
    n_retrievals_to_include = unwrap_or dto.n_retrievals_to_include current.n_retrievals_to_include;
    embedding_size = unwrap_or dto.embedding_size current.embedding_size;
    distance_metric = unwrap_or dto.distance_metric current.distance_metric;
    llm_default_model = unwrap_or dto.llm_default_model current.llm_default_model;
    bm25_enabled = unwrap_or dto.bm25_enabled current.bm25_enabled;
    bm25_b = unwrap_or dto.bm25_b current.bm25_b;
    bm25_k = unwrap_or dto.bm25_k current.bm25_k;
    bm25_avg_len = unwrap_or dto.bm25_avg_len current.bm25_avg_len;
    fulltext_enabled = unwrap_or dto.fulltext_enabled current.fulltext_enabled;
    semantic_enabled = unwrap_or dto.semantic_enabled current.semantic_enabled;
    embedding_query_prefix = unwrap_or dto.embedding_query_prefix current.embedding_query_prefix;
    use_message_to_query_prompt =
        unwrap_or dto.use_message_to_query_prompt current.use_message_to_query_prompt;
    frequency_penalty = or_else dto.frequency_penalty current.frequency_penalty;
    temperature = or_else dto.temperature current.temperature;
    presence_penalty = or_else dto.presence_penalty current.presence_penalty;
    max_tokens = or_else dto.max_tokens current.max_tokens;
    stop_tokens = or_else dto.stop_tokens current.stop_tokens;
    indexed_only = unwrap_or dto.indexed_only current.indexed_only;
    locked = unwrap_or dto.locked current.locked;
    system_prompt = unwrap_or dto.system_prompt current.system_prompt;
    max_limit = unwrap_or dto.max_limit current.max_limit;
  }
