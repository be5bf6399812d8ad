-- ===== src/Dataset/Laws.antt =====
-- What of the settings of a data set survives the database, by to_json and from_json of
-- DatasetConfiguration in server/src/data/models.rs.
use trieve.Prelude.{◌≡◌, refl, ℕ, String, Option, none, some, List}
use trieve.Dataset.Types.{number, natural, texts}
use trieve.Dataset.{
  cosine, DatasetConfiguration, Literals, Environment, default_message_to_query_prompt,
  default_rag_prompt,
}
use trieve.Dataset.Json.{
  if_empty, as_str, as_u64, as_f64, or_null, to_json, from_json, from_object, distance_metric,
  metric_of, embedding_query_prefix, stop_tokens, bm25_enabled,
}

module _ {F : Type 0} (literals : Literals F) (environment : Environment) where
  -- The settings that are read for those that were written: an empty text becomes its default, the
  -- metric the cosine, the address of the reranker that of the environment, and the stop tokens are
  -- gone.
  abbrev pub stored : DatasetConfiguration F → DatasetConfiguration F
  stored c = record c {
    llm_base_url = if_empty c.llm_base_url "https://api.openai.com/v1";
    llm_api_key = if_empty c.llm_api_key "";
    embedding_base_url = if_empty c.embedding_base_url environment.openai_base_url;
    embedding_model_name = if_empty c.embedding_model_name "text-embedding-3-small";
    reranker_base_url =
        if_empty environment.reranker_server_origin environment.reranker_server_origin;
    message_to_query_prompt = if_empty c.message_to_query_prompt default_message_to_query_prompt;
    rag_prompt = if_empty c.rag_prompt default_rag_prompt;
    llm_default_model = if_empty c.llm_default_model "gpt-3.5-turbo-1106";
    distance_metric = cosine;
    stop_tokens = none;
    system_prompt = if_empty c.system_prompt "You are a helpful assistant";
  }

  read_number : (o : Option F) → as_f64 literals environment (or_null (λ x. number x) o) ≡ o
  read_number none = refl
  read_number (some x) = refl

  read_natural : (o : Option ℕ) → as_u64 (or_null {F = F} (λ n. natural n) o) ≡ o
  read_natural none = refl
  read_natural (some n) = refl

  read_texts : (o : Option (List String)) → as_str (or_null {F = F} (λ ts. texts ts) o) ≡ none
  read_texts none = refl
  read_texts (some ts) = refl

  -- The settings of a data set that are written as JSON are read again with all their fields, but for
  -- the defaults of empty texts, the metric, the address of the reranker and the stop tokens, which
  -- are those of `stored`.
  pub from_json-to_json :
      (c : DatasetConfiguration F) → from_json literals environment (to_json c) ≡ some (stored c)
  unfolding to_json from_json from_object distance_metric metric_of embedding_query_prefix
      stop_tokens bm25_enabled
  from_json-to_json c =
      rw
        (
          read_number c.frequency_penalty,
          read_number c.temperature,
          read_number c.presence_penalty,
          read_natural c.max_tokens,
          read_texts c.stop_tokens,
        )
        refl
