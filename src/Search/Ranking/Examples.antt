-- ===== src/Search/Ranking/Examples.antt =====
-- Searches from the results of the vector store on, by server/src/operators/search_operator.rs, with
-- natural numbers for floats.
use trieve.Prelude.{
  ℕ, ◌≤◌, ◌+◌, ◌≡◌, refl, ap, sym, true, false, none, some, List, [], ◌∷◌, length, take,
}
use trieve.Errors.{ok, err, bad_request, returned}
use trieve.Chunks.{ScoreChunkDto, to_string_tag_set, from_string_tag_set, metadata_of}
use trieve.Chunks.Tags.{split_by, join_by}
use trieve.Search.Sort.{sort_by}
use trieve.Search.Condition.Panics.{returns}
use trieve.Search.Rerank.{
  rerank_chunks, apply_weights, weigh, bias_by_location, sort_by_field, by_score,
}
use trieve.Search.Rerank.Examples.{floats, fresh, result, salty, heavy}
use trieve.Search.CrossEncoder.{
  Reranker, cross_encoder, score_all, score_batch, request_docs, set_scores, set_score, best_of,
}
use trieve.Search.CrossEncoder.Best.{InBatches, cross_encoder-best}
use trieve.Search.Retrieve.{
  SearchRequest, SearchResult, Retrieval, retrieve_chunks_from_point_ids, get_chunks, score_chunks,
  highlighted,
}
use trieve.Search.Filter.Wanted.{all, returned-injective}
use trieve.Search.Retrieve.Retrieved.{not_slim, retrieve_chunks_from_point_ids-returns, Forms}
use trieve.Search.Ranking.{rank_hybrid, rank_hybrid_group, answer_hybrid}
use trieve.Search.Ranking.Sizes.{rank_hybrid_group-length}

-- The model gives the first of two texts the score 1 and the second the score 2.
abbrev pub reranker : Reranker ℕ
reranker = record { call = λ query docs. ok ((0, 1) ∷ (1, 2) ∷ []); html_to_text = λ html. html }

abbrev pub retrieval : Retrieval ℕ
retrieval = record {
  get_slim_chunks = λ ids. returned (ok []);
  get_content_chunks = λ ids. returned (ok []);
  get_metadata_chunks = λ ids. returned (ok (salty ∷ heavy ∷ []));
  get_highlights = λ chunk query rest. returned (err (bad_request "no"));
  get_highlights_with_exact_match = λ chunk query rest. returned (err (bad_request "no"));
}

abbrev request : SearchRequest ℕ
request = record {
  query = some "bread";
  is_hybrid = true;
  slim_chunks = none;
  content_only = none;
  highlight_options = none;
  page_size = some 1;
  score_threshold = none;
  sort_by = none;
  cross_encode = true;
  tag_weights = none;
  use_weights = some false;
  location_bias = none;
}

abbrev found : List (SearchResult ℕ)
found = record { score = 9; point_id = 1 } ∷ record { score = 8; point_id = 2 } ∷ []

abbrev results : List (ScoreChunkDto ℕ)
results = result salty 9 ∷ result heavy 8 ∷ []

-- The second result is the better one for the model, and the page has room for one.
encoded :
    cross_encoder floats fresh reranker "bread" 1 results ≡ returned (ok (result heavy 2 ∷ []))
unfolding cross_encoder score_all score_batch request_docs set_scores set_score best_of sort_by
encoded = refl

cross_encoder-best_example :
    (scored : List (ScoreChunkDto ℕ)) × InBatches floats fresh reranker "bread" results scored
    × (result heavy 2 ∷ [] ≡ take 1 (sort_by (by_score floats fresh) scored))
cross_encoder-best_example =
    cross_encoder-best floats fresh reranker "bread" 1 results (result heavy 2 ∷ []) encoded

answer_test :
    answer_hybrid floats fresh reranker retrieval request found
    ≡ returned (ok (result heavy 2 ∷ []))
unfolding answer_hybrid retrieve_chunks_from_point_ids get_chunks score_chunks highlighted
    rank_hybrid cross_encoder score_all score_batch request_docs set_scores set_score best_of
    sort_by rerank_chunks apply_weights weigh bias_by_location sort_by_field metadata_of
    from_string_tag_set to_string_tag_set split_by join_by
answer_test = refl

hybrid : rank_hybrid floats fresh reranker request results ≡ returned (ok (result heavy 2 ∷ []))
unfolding rank_hybrid cross_encoder score_all score_batch request_docs set_scores set_score best_of
    sort_by rerank_chunks apply_weights bias_by_location sort_by_field
hybrid = refl

in_group :
    rank_hybrid_group floats fresh reranker request results ≡ returned (ok (result heavy 2 ∷ []))
unfolding rank_hybrid_group cross_encoder score_all score_batch request_docs set_scores set_score
    best_of sort_by rerank_chunks apply_weights bias_by_location sort_by_field
in_group = refl

rank_hybrid_group-length_example : length (result heavy 2 ∷ []) ≤ 1 + 20
rank_hybrid_group-length_example =
    rank_hybrid_group-length floats fresh reranker request results (result heavy 2 ∷ []) in_group

forms : Forms fresh retrieval
forms = (
  (λ ids chunks e. ap (all not_slim) (sym (returned-injective e))),
  (λ ids chunks e. ap (all not_slim) (sym (returned-injective e))),
)

retrieve_chunks_from_point_ids-returns_example :
    returns (retrieve_chunks_from_point_ids fresh retrieval request found) ≡ true
retrieve_chunks_from_point_ids-returns_example =
    retrieve_chunks_from_point_ids-returns fresh retrieval request found
      ((λ ids. refl), (λ ids. refl), (λ ids. refl)) (λ chunk query rest. (refl, refl)) forms
