-- ===== src/Dataset/Json.antt =====
-- DatasetConfiguration::from_json and to_json of server/src/data/models.rs. `none` is the panic of an
-- `expect`.
use trieve.Prelude.{
  ℕ, String, str_eq, Bool, true, false, Option, none, some, List, [], ◌∷◌, unwrap_or, if◌then◌else◌,
}
use trieve.Chunks.Tags.{split}
use trieve.Dataset.Types.{Value, null, boolean, natural, number, text_value, texts, Json, object}
use trieve.Dataset.{
  DistanceMetric, euclidean, cosine, manhattan, dot, DatasetConfiguration, Literals, Environment,
  or_else, default_message_to_query_prompt, default_rag_prompt,
}

abbrev pub Object : Type 0 → Type 0
Object F = List (String × Value F)

abbrev pub if_empty : String → String → String
if_empty s default_text = if str_eq s "" then default_text else s

abbrev pub and_then : {A B : Type 0} → Option A → (A → Option B) → Option B
and_then none f = none
and_then (some a) f = f a

unfoldable pub metric_of : String → DistanceMetric
metric_of s =
    if str_eq s "cosine"
    then cosine
    else if str_eq s "euclid"
    then euclidean
    else if str_eq s "euclidean"
    then euclidean
    else if str_eq s "dot"
    then dot
    else if str_eq s "manhattan"
    then manhattan
    else cosine

module _ {F : Type 0} where
  -- `configuration.get(key)`
  abbrev pub get : Object F → String → Option (Value F)
  get [] key = none
  get ((name, value) ∷ entries) key =
      let rest = get entries key in if str_eq name key then some value else rest

  abbrev pub as_str : Value F → Option String
  as_str (text_value s) = some s
  as_str _ = none

  abbrev pub as_bool : Value F → Option Bool
  as_bool (boolean b) = some b
  as_bool _ = none

  abbrev pub as_u64 : Value F → Option ℕ
  as_u64 (natural n) = some n
  as_u64 _ = none

  abbrev pub as_object : Json F → Option (Object F)
  as_object (object entries) = some entries
  as_object _ = none

  -- A text, or the default where it is missing, is no text, or is empty.
  abbrev pub text_or : Object F → String → String → String
  text_or config key default_text =
      if_empty (unwrap_or (and_then (get config key) as_str) default_text) default_text

  -- The same, but a value that is no text panics.
  abbrev pub expect_text : Object F → String → String → Option String
  expect_text config key default_text = elim (get config key) [
    | none ↦ some (if_empty default_text default_text)
    | some value ↦ elim (as_str value) [ none ↦ none | some s ↦ some (if_empty s default_text) ]
  ]

  abbrev pub flag_or : Object F → String → Bool → Bool
  flag_or config key default_flag = unwrap_or (and_then (get config key) as_bool) default_flag

  abbrev pub natural_or : Object F → String → ℕ → ℕ
  natural_or config key default_natural =
      unwrap_or (and_then (get config key) as_u64) default_natural

  unfoldable pub distance_metric : Object F → DistanceMetric
  distance_metric config =
      metric_of (unwrap_or (and_then (get config "DISTANCE_METRIC") as_str) "cosine")

  unfoldable pub embedding_query_prefix : Object F → String
  embedding_query_prefix config = elim (get config "EMBEDDING_QUERY_PREFIX") [
    | some value ↦ unwrap_or (as_str value) ""
    | none ↦
        if str_eq (text_or config "EMBEDDING_MODEL_NAME" "text-embedding-3-small") "jina-base-en"
        then "Search for"
        else ""
  ]

  unfoldable pub stop_tokens : Object F → Option (List String)
  stop_tokens config = and_then (and_then (get config "STOP_TOKENS") as_str) (λ s. some (split s))

module _ {F : Type 0} (literals : Literals F) (environment : Environment) where
  abbrev pub as_f64 : Value F → Option F
  as_f64 (natural n) = some (literals.to_float n)
  as_f64 (number x) = some x
  as_f64 _ = none

  -- The floats under the keys of BM25 are values of an f32, which `as f32` leaves as they are.
  abbrev pub float_at : Object F → String → Option F
  float_at config key = and_then (get config key) as_f64

  abbrev pub bm25_default : Option (Value F)
  bm25_default = elim environment.bm25_active [
    | none ↦ none
    | some value ↦ some (boolean (str_eq value "true"))
  ]

  unfoldable pub bm25_enabled : Object F → Bool
  bm25_enabled config =
      unwrap_or (and_then (or_else (get config "BM25_ENABLED") bm25_default) as_bool) false

  -- The configuration, with the two texts that are expected.
  unfoldable pub from_object : Object F → String → String → DatasetConfiguration F
  from_object config embedding_base_url reranker_base_url = record {
    llm_base_url = text_or config "LLM_BASE_URL" "https://api.openai.com/v1";
    llm_api_key = text_or config "LLM_API_KEY" "";
    embedding_base_url = embedding_base_url;
    embedding_model_name = text_or config "EMBEDDING_MODEL_NAME" "text-embedding-3-small";
    reranker_base_url = reranker_base_url;
    message_to_query_prompt =
        text_or config "MESSAGE_TO_QUERY_PROMPT" default_message_to_query_prompt;
    rag_prompt = text_or config "RAG_PROMPT" default_rag_prompt;
    n_retrievals_to_include = natural_or config "N_RETRIEVALS_TO_INCLUDE" 5;
    embedding_size = natural_or config "EMBEDDING_SIZE" 1536;
    distance_metric = distance_metric config;
    llm_default_model = text_or config "LLM_DEFAULT_MODEL" "gpt-3.5-turbo-1106";
    bm25_enabled = bm25_enabled config;
    bm25_b = unwrap_or (float_at config "BM25_B") literals.three_quarters;
    bm25_k = unwrap_or (float_at config "BM25_K") literals.one_point_two;
    bm25_avg_len = unwrap_or (float_at config "BM25_AVG_LEN") literals.two_hundred_fifty_six;
    fulltext_enabled = flag_or config "FULLTEXT_ENABLED" true;
    semantic_enabled = flag_or config "SEMANTIC_ENABLED" true;
    embedding_query_prefix = embedding_query_prefix config;
    use_message_to_query_prompt = flag_or config "USE_MESSAGE_TO_QUERY_PROMPT" false;
    frequency_penalty = float_at config "FREQUENCY_PENALTY";
    temperature = float_at config "TEMPERATURE";
    presence_penalty = float_at config "PRESENCE_PENALTY";
    max_tokens = and_then (get config "MAX_TOKENS") as_u64;
    stop_tokens = stop_tokens config;
    indexed_only = flag_or config "INDEXED_ONLY" false;
    locked = flag_or config "LOCKED" false;
    system_prompt = text_or config "SYSTEM_PROMPT" "You are a helpful assistant";
    max_limit = natural_or config "MAX_LIMIT" 10000;
  }

  unfoldable pub from_json : Json F → Option (DatasetConfiguration F)
  from_json configuration =
      let config = unwrap_or (as_object configuration) [] in
      and_then (expect_text config "EMBEDDING_BASE_URL" environment.openai_base_url)
        (λ embedding_base_url.
          and_then (expect_text config "RERANKER_SERVER_ORIGIN" environment.reranker_server_origin)
            (λ reranker_base_url. some (from_object config embedding_base_url reranker_base_url)))

module _ {F : Type 0} where
  abbrev pub or_null : {A : Type 0} → (A → Value F) → Option A → Value F
  or_null f none = null
  or_null f (some a) = f a

  unfoldable pub to_json : DatasetConfiguration F → Json F
  to_json config = object (
      ("LLM_BASE_URL", text_value config.llm_base_url)
      ∷ ("LLM_API_KEY", text_value config.llm_api_key)
      ∷ ("EMBEDDING_BASE_URL", text_value config.embedding_base_url)
      ∷ ("EMBEDDING_MODEL_NAME", text_value config.embedding_model_name)
      ∷ ("MESSAGE_TO_QUERY_PROMPT", text_value config.message_to_query_prompt)
      ∷ ("RAG_PROMPT", text_value config.rag_prompt)
      ∷ ("N_RETRIEVALS_TO_INCLUDE", natural config.n_retrievals_to_include)
      ∷ ("EMBEDDING_SIZE", natural config.embedding_size)
      ∷ ("LLM_DEFAULT_MODEL", text_value config.llm_default_model)
      ∷ ("BM25_ENABLED", boolean config.bm25_enabled)
      ∷ ("BM25_B", number config.bm25_b)
      ∷ ("BM25_K", number config.bm25_k)
      ∷ ("BM25_AVG_LEN", number config.bm25_avg_len)
      ∷ ("FULLTEXT_ENABLED", boolean config.fulltext_enabled)
      ∷ ("SEMANTIC_ENABLED", boolean config.semantic_enabled)
      ∷ ("EMBEDDING_QUERY_PREFIX", text_value config.embedding_query_prefix)
      ∷ ("USE_MESSAGE_TO_QUERY_PROMPT", boolean config.use_message_to_query_prompt)
      ∷ ("FREQUENCY_PENALTY", or_null (λ x. number x) config.frequency_penalty)
      ∷ ("TEMPERATURE", or_null (λ x. number x) config.temperature)
      ∷ ("PRESENCE_PENALTY", or_null (λ x. number x) config.presence_penalty)
      ∷ ("STOP_TOKENS", or_null (λ ts. texts ts) config.stop_tokens)
      ∷ ("INDEXED_ONLY", boolean config.indexed_only)
      ∷ ("LOCKED", boolean config.locked)
      ∷ ("SYSTEM_PROMPT", text_value config.system_prompt)
      ∷ ("MAX_LIMIT", natural config.max_limit)
      ∷ ("MAX_TOKENS", or_null (λ n. natural n) config.max_tokens)
      ∷ [])
