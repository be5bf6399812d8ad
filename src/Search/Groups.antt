-- ===== src/Search/Groups.antt =====
-- The search over groups of server/src/operators/search_operator.rs: retrieve_chunks_for_groups,
-- cross_encoder_for_groups, and hybrid_search_over_groups from the results of the vector store on.
pub mod Types
pub mod Combined
pub mod Examples
use Prim.Native.Nat.{Ordering}
use trieve.Prelude.{
  ℕ, zero, String, Bool, true, false, not, ◌==◌, Option, none, some, List, [], ◌∷◌, ◌++◌, map, find,
  length, leb, take, drop, unwrap_or, if◌then◌else◌, retain,
}
use trieve.Errors.{Result, ok, err, Outcome, returned, panicked, chain}
use trieve.Models.{Uuid}
use trieve.Chunks.{ScoreChunkDto, Fresh, metadata_of, map_option}
use trieve.Search.Sort.{sort_by}
use trieve.Search.Rerank.{Floats, by_score}
use trieve.Search.CrossEncoder.{Reranker, cross_encoder, set_score, all_comparable}
use trieve.Search.Retrieve.{SearchRequest, SearchResult, Retrieval, get_chunks, score_chunks}
use trieve.Search.Ranking.{at_least, to_single_query}
pub use trieve.Search.Groups.Types.{
  GroupSearchResults, ChunkGroupAndFileId, GroupScoreChunk, SearchOverGroupsRequest,
}

-- `xs.zip(ys).flat_map(|(x, y)| vec![x, y])`
abbrev pub interleave : {A : Type 0} → List A → List A → List A
interleave (x ∷ xs) (y ∷ ys) = x ∷ y ∷ interleave xs ys
interleave _ _ = []

abbrev pub map_outcome : {A B : Type 0} → (A → Outcome B) → List A → Outcome (List B)
map_outcome f [] = returned (ok [])
map_outcome f (a ∷ rest) =
    chain (f a) (λ b. chain (map_outcome f rest) (λ bs. returned (ok (b ∷ bs))))

-- `metadata[0]` and `metadata.get(0).expect(..)`
abbrev pub first_of : {A : Type 0} → List A → Outcome A
first_of [] = panicked
first_of (a ∷ rest) = returned (ok a)

module _ {F : Type 0} where
  abbrev pub same_group : GroupSearchResults F → GroupSearchResults F → Bool
  same_group group other = other.group_id == group.group_id

  -- `unique_by(|chunk| chunk.group_id)`: the first of equal ones stays.
  unfoldable pub unique_groups : List (GroupSearchResults F) → List (GroupSearchResults F)
  unique_groups [] = []
  unique_groups (group ∷ groups) =
      group ∷ retain (λ other. not (same_group group other)) (unique_groups groups)

  unfoldable pub combined_results :
      List (GroupSearchResults F) → List (GroupSearchResults F) → List (GroupSearchResults F)
  combined_results semantic full_text = unique_groups (interleave semantic full_text)

  abbrev pub point_ids_of : List (GroupSearchResults F) → List Uuid
  point_ids_of [] = []
  point_ids_of (group ∷ groups) = map (λ hit. hit.point_id) group.hits ++ point_ids_of groups

  -- What the retrieval of a chunk reads of the request.
  abbrev pub chunk_request : SearchOverGroupsRequest F → SearchRequest F
  chunk_request request = record {
    query = request.query;
    is_hybrid = request.is_hybrid;
    slim_chunks = request.slim_chunks;
    content_only = none;
    highlight_options = request.highlight_options;
    page_size = request.page_size;
    score_threshold = request.score_threshold;
    sort_by = none;
    cross_encode = false;
    tag_weights = none;
    use_weights = none;
    location_bias = none;
  }

  -- `GroupScoreChunk { .. }`; the defaults of an id and of a time are zero.
  unfoldable pub group_of :
      Uuid → Option ChunkGroupAndFileId → List (ScoreChunkDto F) → GroupScoreChunk F
  group_of group_id group_data chunks = record {
    group_id = group_id;
    group_name = map_option (λ g. g.name) group_data;
    group_description = map_option (λ g. g.description) group_data;
    group_created_at = unwrap_or (map_option (λ g. g.created_at) group_data) 0;
    group_updated_at = unwrap_or (map_option (λ g. g.updated_at) group_data) 0;
    group_tracking_id = elim group_data [ none ↦ none | some g ↦ g.tracking_id ];
    group_metadata = elim group_data [ none ↦ none | some g ↦ g.metadata ];
    group_tag_set = elim group_data [ none ↦ none | some g ↦ g.tag_set ];
    group_dataset_id = unwrap_or (map_option (λ g. g.dataset_id) group_data) 0;
    metadata = chunks;
    file_id = elim group_data [ none ↦ none | some g ↦ g.file_id ];
  }

  -- `dedup_by(|a, b| a.group_id == b.group_id)`: the first of equal neighbours stays.
  unfoldable pub dedup_after : Uuid → List (GroupScoreChunk F) → List (GroupScoreChunk F)
  dedup_after id [] = []
  dedup_after id (group ∷ groups) = elim (group.group_id == id) [
    | true ↦ dedup_after id groups
    | false ↦ group ∷ dedup_after group.group_id groups
  ]

  unfoldable pub dedup : List (GroupScoreChunk F) → List (GroupScoreChunk F)
  dedup [] = []
  dedup (group ∷ groups) = group ∷ dedup_after group.group_id groups

module _ {F : Type 0} (floats : Floats F) (fresh : Fresh) (reranker : Reranker F) where
  -- `sorted_by(|a, b| b.score.partial_cmp(&a.score).unwrap())`
  abbrev pub sorted : List (ScoreChunkDto F) → Outcome (List (ScoreChunkDto F))
  sorted chunks =
      if all_comparable floats fresh reranker (map (λ c. c.score) chunks)
      then returned (ok (sort_by (by_score floats fresh) chunks))
      else panicked

  module _ (retrieval : Retrieval F)
      (get_groups_from_group_ids : List Uuid → Result (List ChunkGroupAndFileId)) where
    unfoldable pub retrieve_chunks_for_groups :
        SearchOverGroupsRequest F → List (GroupSearchResults F) → Outcome (List (GroupScoreChunk F))
    retrieve_chunks_for_groups request results =
        chain (get_chunks fresh retrieval (chunk_request request) (point_ids_of results)) (λ chunks.
          chain (returned (get_groups_from_group_ids (map (λ r. r.group_id) results))) (λ groups.
            map_outcome
              (λ result.
                chain (score_chunks fresh retrieval (chunk_request request) chunks result.hits)
                  (λ scored. chain (sorted scored) (λ hits. returned (
                    ok (
                      group_of result.group_id (find (λ g. g.id == result.group_id) groups)
                        hits)))))
              results))

  abbrev pub chunk_id : ScoreChunkDto F → Outcome Uuid
  chunk_id chunk = chain (first_of chunk.metadata) (λ m. returned (ok (metadata_of fresh m).id))

  -- `group.metadata.iter().any(..)`
  abbrev pub has_chunk : Uuid → List (ScoreChunkDto F) → Outcome Bool
  has_chunk id [] = returned (ok false)
  has_chunk id (chunk ∷ chunks) =
      let rest = has_chunk id chunks in
      chain (chunk_id chunk) (λ other. if other == id then returned (ok true) else rest)

  -- `groups_chunks.iter().find(..).expect("Group not found")`
  abbrev pub group_with : Uuid → List (GroupScoreChunk F) → Outcome (GroupScoreChunk F)
  group_with id [] = panicked
  group_with id (group ∷ groups) =
      let rest = group_with id groups in
      chain (has_chunk id group.metadata) (λ b. if b then returned (ok group) else rest)

  unfoldable pub with_score :
      List (GroupScoreChunk F) → ScoreChunkDto F → Outcome (GroupScoreChunk F)
  with_score groups chunk = chain (chunk_id chunk) (λ id. chain (group_with id groups) (λ group.
      elim (set_score floats fresh reranker zero chunk.score group.metadata) [
        | none ↦ panicked
        | some chunks ↦ returned (ok (record group { metadata = chunks }))
      ]))

  -- `b.metadata[0].score.partial_cmp(&a.metadata[0].score).unwrap_or(Equal)`. The groups that are
  -- compared have got the score of a first chunk.
  abbrev pub by_first_score : GroupScoreChunk F → GroupScoreChunk F → Ordering
  by_first_score a b = elim a.metadata [
    | [] ↦ Ordering.eq
    | x ∷ xs ↦ elim b.metadata [
      | [] ↦ Ordering.eq
      | y ∷ ys ↦ unwrap_or (floats.partial_cmp y.score x.score) Ordering.eq
    ]
  ]

  abbrev pub sorted_group : GroupScoreChunk F → Outcome (GroupScoreChunk F)
  sorted_group group =
      chain (sorted group.metadata) (λ chunks. returned (ok (record group { metadata = chunks })))

  unfoldable pub cross_encoder_for_groups :
      String → ℕ → List (GroupScoreChunk F) → Outcome (List (GroupScoreChunk F))
  cross_encoder_for_groups query page_size groups =
      chain (map_outcome (λ g. first_of g.metadata) groups) (λ chunks.
        chain (cross_encoder floats fresh reranker query page_size chunks) (λ scored.
          chain (map_outcome (with_score groups) scored)
            (λ results. map_outcome sorted_group (sort_by by_first_score (dedup results)))))

  abbrev pub cross_encode_groups :
      SearchOverGroupsRequest F → List (GroupScoreChunk F) → Outcome (List (GroupScoreChunk F))
  cross_encode_groups request groups =
      chain (returned (to_single_query floats fresh reranker request.query))
        (λ query. cross_encoder_for_groups query (unwrap_or request.page_size 10) groups)

  -- `reranked_chunks.retain(..)`, and the chunks of the groups that stay.
  abbrev pub groups_at_least : F → List (GroupScoreChunk F) → Outcome (List (GroupScoreChunk F))
  groups_at_least threshold [] = returned (ok [])
  groups_at_least threshold (group ∷ groups) =
      let rest = groups_at_least threshold groups in
      chain (first_of group.metadata) (λ chunk. chain rest (λ kept. returned (
        ok (
          if at_least floats fresh reranker threshold chunk
          then record group {
            metadata = retain (at_least floats fresh reranker threshold) group.metadata;
          }
            ∷ kept
          else kept))))

  abbrev pub groups_above : Option F → List (GroupScoreChunk F) → Outcome (List (GroupScoreChunk F))
  groups_above none groups = returned (ok groups)
  groups_above (some threshold) groups = groups_at_least threshold groups

  -- Of more than 20 groups the first 20 are ranked, and the next 20 follow them.
  unfoldable pub rank_groups :
      SearchOverGroupsRequest F → List (GroupScoreChunk F) → Outcome (List (GroupScoreChunk F))
  rank_groups request groups =
      if leb (length groups) 20
      then chain (cross_encode_groups request groups) (groups_above request.score_threshold)
      else chain (cross_encode_groups request (take 20 groups))
          (λ ranked. groups_above request.score_threshold (ranked ++ take 20 (drop 20 groups)))

  -- `hybrid_search_over_groups` from the results of the vector store on.
  unfoldable pub answer_hybrid_over_groups :
      Retrieval F
      → (List Uuid → Result (List ChunkGroupAndFileId))
      → SearchOverGroupsRequest F
      → List (GroupSearchResults F)
      → List (GroupSearchResults F)
      → Outcome (List (GroupScoreChunk F))
  answer_hybrid_over_groups retrieval get_groups request semantic full_text =
      chain
        (retrieve_chunks_for_groups retrieval get_groups request
          (combined_results semantic full_text))
        (rank_groups request)
