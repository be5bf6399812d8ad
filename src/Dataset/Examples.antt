-- ===== src/Dataset/Examples.antt =====
-- Settings of data sets, by DatasetConfiguration of server/src/data/models.rs.
use trieve.Prelude.{◌≡◌, refl, String, none, some, [], ◌∷◌}
use trieve.Dataset.Types.{object, no_object, natural, null}
use trieve.Dataset.{DatasetConfiguration, Literals, Environment, cosine, dot, default}
use trieve.Dataset.Json.{
  to_json, from_json, from_object, distance_metric, metric_of, embedding_query_prefix, stop_tokens,
  bm25_enabled,
}
use trieve.Dataset.Laws.{stored, from_json-to_json}

abbrev literals : Literals String
literals = record {
  three_quarters = "0.75";
  one_point_two = "1.2";
  two_hundred_fifty_six = "256.0";
  to_float = λ n. "n";
}

abbrev environment : Environment
environment = record {
  openai_base_url = "https://models";
  reranker_server_origin = "https://reranker";
  bm25_active = some "true";
}

abbrev settings : DatasetConfiguration String
settings = record (default literals) {
  distance_metric = dot;
  stop_tokens = some ("stop" ∷ []);
  temperature = some "0.5";
}

-- The metric of the data set is lost, and its stop tokens.
lost_test :
    from_json literals environment (to_json settings)
    ≡ some (record settings {
      distance_metric = cosine;
      stop_tokens = none;
      reranker_base_url = "https://reranker";
    })
unfolding default to_json from_json from_object distance_metric metric_of embedding_query_prefix
    stop_tokens bm25_enabled
lost_test = refl

-- An address that is no text panics.
panic_test : from_json literals environment (object (("EMBEDDING_BASE_URL", natural 1) ∷ [])) ≡ none
unfolding from_json
panic_test = refl

-- What is no object gives the defaults; four of them are other ones than those of `default`.
defaults_test :
    from_json literals environment (no_object null)
    ≡ some (record (default literals) {
      embedding_base_url = "https://models";
      reranker_base_url = "https://reranker";
      n_retrievals_to_include = 5;
      bm25_k = "1.2";
    })
unfolding default from_json from_object distance_metric metric_of embedding_query_prefix stop_tokens
    bm25_enabled
defaults_test = refl

from_json-to_json_example :
    from_json literals environment (to_json settings) ≡ some (stored literals environment settings)
from_json-to_json_example = from_json-to_json literals environment settings
