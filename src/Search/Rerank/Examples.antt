-- ===== src/Search/Rerank/Examples.antt =====
-- Rerankings by rerank_chunks of server/src/operators/search_operator.rs, with natural numbers for
-- floats.
use Prim.Native.Nat.{compare}
use trieve.Prelude.{
  ℕ, ◌+◌, ◌-◌, ◌*◌, ◌/◌, ◌==◌, ◌≡◌, refl, String, Option, none, some, List, [], ◌∷◌, ltb,
}
use trieve.Chunks.{
  ChunkMetadataTypes, full, ScoreChunkDto, Fresh, to_string_tag_set, from_string_tag_set,
  metadata_of,
}
use trieve.Chunks.Tags.{split_by, join_by}
use trieve.Search.Sort.{Sorted, sort_by}
use trieve.Search.Rerank.{
  Floats, SortByField, asc, rerank_chunks, apply_weights, weigh, bias_by_location, tag_score,
  sort_by_field, sort_checked,
}
use trieve.Search.Rerank.Laws.{SameResults}
use trieve.Search.Rerank.Order.{
  rerank_chunks-SameResults, rerank_chunks-Sorted, wanted_order, dual_compare,
}

abbrev pub floats : Floats ℕ
floats = record {
  add = λ a b. a + b;
  sub = λ a b. a - b;
  mul = λ a b. a * b;
  div = λ a b. a / b;
  zero_float = 0;
  one = 1;
  is_zero = λ a. a == 0;
  is_positive = λ a. ltb 0 a;
  partial_cmp = λ a b. some (compare a b);
  haversine_distance = λ a b. 0;
}

abbrev pub fresh : Fresh
fresh = record { now = 0; new_v4 = 0 }

abbrev pub chunk : ℕ → ℕ → Option (List (Option String)) → ChunkMetadataTypes ℕ
chunk id weight tags = full (
    to_string_tag_set (record {
      id = id;
      link = none;
      qdrant_point_id = id;
      created_at = 0;
      updated_at = 0;
      chunk_html = none;
      metadata = none;
      tracking_id = none;
      time_stamp = some id;
      dataset_id = 7;
      weight = weight;
      location = none;
      image_urls = none;
      tag_set = tags;
      num_value = none;
    }))

abbrev pub result : ChunkMetadataTypes ℕ → ℕ → ScoreChunkDto ℕ
result m score = record { metadata = m ∷ []; highlights = none; score = score }

abbrev pub salty : ChunkMetadataTypes ℕ
salty = chunk 1 0 (some (some "salty" ∷ []))

abbrev pub heavy : ChunkMetadataTypes ℕ
heavy = chunk 2 3 none

abbrev results : List (ScoreChunkDto ℕ)
results = result salty 5 ∷ result heavy 4 ∷ []

-- The weight of the second result lifts it above the first, whose tag doubles its score.
ranked :
    rerank_chunks floats fresh results none (some (("salty", 2) ∷ [])) none none
    ≡ some (result heavy 12 ∷ result salty 10 ∷ [])
unfolding rerank_chunks apply_weights weigh bias_by_location tag_score sort_by_field sort_by
    metadata_of from_string_tag_set to_string_tag_set split_by join_by
ranked = refl

-- By the time, the oldest first.
abbrev oldest : SortByField
oldest = record { field = "time_stamp"; direction = some asc; prefetch_amount = none }

oldest_test :
    rerank_chunks floats fresh results (some oldest) none none none
    ≡ some (result salty 5 ∷ result heavy 12 ∷ [])
unfolding rerank_chunks apply_weights weigh bias_by_location tag_score sort_by_field sort_checked
    sort_by metadata_of from_string_tag_set to_string_tag_set split_by join_by
oldest_test = refl

-- A result without metadata stops the request.
panic_test :
    rerank_chunks floats fresh
      (record { metadata = []; highlights = none; score = 1 } ∷ [])
      none
      none
      none
      none
    ≡ none
unfolding rerank_chunks apply_weights weigh
panic_test = refl

rerank_chunks-SameResults_example : SameResults (result heavy 12 ∷ result salty 10 ∷ []) results
rerank_chunks-SameResults_example =
    rerank_chunks-SameResults floats fresh results (result heavy 12 ∷ result salty 10 ∷ []) none
      (some (("salty", 2) ∷ [])) none none ranked

rerank_chunks-Sorted_example :
    Sorted (wanted_order floats fresh none) (result heavy 12 ∷ result salty 10 ∷ [])
rerank_chunks-Sorted_example =
    rerank_chunks-Sorted floats fresh dual_compare results (result heavy 12 ∷ result salty 10 ∷ [])
      none (some (("salty", 2) ∷ [])) none none ranked
