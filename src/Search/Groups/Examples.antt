-- ===== src/Search/Groups/Examples.antt =====
-- A hybrid search over groups by server/src/operators/search_operator.rs, with natural numbers for
-- floats.
use trieve.Prelude.{◌≡◌, refl, ◌||◌, true, none, some, List, [], ◌∷◌, ℕ}
use trieve.Errors.{Result, ok, returned}
use trieve.Models.{Uuid}
use trieve.Chunks.{to_string_tag_set, from_string_tag_set, metadata_of}
use trieve.Chunks.Tags.{split_by, join_by}
use trieve.Search.Sort.{sort_by}
use trieve.Search.Rerank.Examples.{floats, fresh, result, heavy}
use trieve.Search.CrossEncoder.{
  cross_encoder, score_all, score_batch, request_docs, set_scores, set_score, best_of,
}
use trieve.Search.Retrieve.{get_chunks, score_chunks, highlighted}
use trieve.Search.Ranking.Examples.{reranker, retrieval}
use trieve.Search.Groups.{
  GroupSearchResults, ChunkGroupAndFileId, SearchOverGroupsRequest, unique_groups, combined_results,
  group_of, dedup, dedup_after, with_score, retrieve_chunks_for_groups, cross_encoder_for_groups,
  rank_groups, answer_hybrid_over_groups,
}
use trieve.Search.Groups.Combined.{has_group, AllDistinct, common, combined_results-AllDistinct}

abbrev bread : GroupSearchResults ℕ
bread = record { group_id = 7; hits = record { score = 9; point_id = 1 } ∷ [] }

abbrev salt : GroupSearchResults ℕ
salt = record { group_id = 8; hits = record { score = 8; point_id = 2 } ∷ [] }

abbrev semantic : List (GroupSearchResults ℕ)
semantic = bread ∷ salt ∷ []

abbrev full_text : List (GroupSearchResults ℕ)
full_text = salt ∷ bread ∷ salt ∷ []

abbrev request : SearchOverGroupsRequest ℕ
request = record {
  query = some "bread";
  is_hybrid = true;
  slim_chunks = none;
  highlight_options = none;
  page_size = some 1;
  score_threshold = none;
}

abbrev no_groups : List Uuid → Result (List ChunkGroupAndFileId)
no_groups ids = ok []

-- The model prefers the second group, and the page has room for one.
answer_test :
    answer_hybrid_over_groups floats fresh reranker retrieval no_groups request semantic full_text
    ≡ returned (ok (group_of 8 none (result heavy 2 ∷ []) ∷ []))
unfolding answer_hybrid_over_groups retrieve_chunks_for_groups combined_results unique_groups
    rank_groups cross_encoder_for_groups with_score dedup dedup_after group_of get_chunks
    score_chunks highlighted cross_encoder score_all score_batch request_docs set_scores set_score
    best_of sort_by metadata_of from_string_tag_set to_string_tag_set split_by join_by
answer_test = refl

-- Without results of the full-text search there are no groups at all.
nothing_combined_test : combined_results semantic [] ≡ []
unfolding combined_results unique_groups
nothing_combined_test = refl

combined_results-AllDistinct_example :
    AllDistinct (combined_results semantic full_text)
    × (has_group 8 (combined_results semantic full_text)
        ≡ (has_group 8 (common semantic full_text) || has_group 8 (common full_text semantic)))
combined_results-AllDistinct_example = combined_results-AllDistinct semantic full_text 8
