-- ===== src/Search/Ranking.antt =====
-- The ends of search_chunks_query, search_hybrid_chunks and search_hybrid_groups of
-- server/src/operators/search_operator.rs: the retrieved chunks are scored by the cross encoder,
-- reranked and cut to a page.
pub mod Sizes
pub mod Examples
use Prim.Native.Nat.{Ordering}
use trieve.Prelude.{
  ℕ, String, Bool, true, false, not, ◌==◌, Option, none, some, List, [], ◌∷◌, ◌++◌, map, length,
  leb, take, drop, unwrap_or, if◌then◌else◌, retain,
}
use trieve.Errors.{bad_request, Result, ok, err, Outcome, returned, panicked, chain, ok_or}
use trieve.Chunks.{
  ChunkMetadataTypes, slim, full, content, ScoreChunkDto, Fresh, metadata_of, to_slim,
}
use trieve.Search.Rerank.{Floats, rerank_chunks}
use trieve.Search.CrossEncoder.{Reranker, cross_encoder, batches}
use trieve.Search.Retrieve.{SearchRequest, SearchResult, Retrieval, retrieve_chunks_from_point_ids}

-- `unique_by(|chunk| chunk.point_id)`: the first of equal ones stays.
unfoldable pub unique_points : {F : Type 0} → List (SearchResult F) → List (SearchResult F)
unique_points [] = []
unique_points (result ∷ results) =
    result ∷ retain (λ other. not (other.point_id == result.point_id)) (unique_points results)

module _ {F : Type 0} (floats : Floats F) (fresh : Fresh) (reranker : Reranker F) where
  abbrev pub at_least : F → ScoreChunkDto F → Bool
  at_least threshold chunk = elim (floats.partial_cmp chunk.score threshold) [
    | none ↦ false
    | some o ↦ elim o [ Ordering.lt ↦ false | Ordering.eq ↦ true | Ordering.gt ↦ true ]
  ]

  -- `if let Some(score_threshold) = data.score_threshold { .. retain(..) }`
  abbrev pub above_threshold : Option F → List (ScoreChunkDto F) → List (ScoreChunkDto F)
  above_threshold none chunks = chunks
  above_threshold (some threshold) chunks = retain (at_least threshold) chunks

  abbrev pub to_single_query : Option String → Result String
  to_single_query query =
      ok_or query (bad_request "Cannot use Multi Query with cross encoder or highlights")

  abbrev pub page_of : SearchRequest F → ℕ
  page_of request = unwrap_or request.page_size 10

  abbrev pub or_panic : {A : Type 0} → Option A → Outcome A
  or_panic none = panicked
  or_panic (some a) = returned (ok a)

  abbrev pub rerank : SearchRequest F → List (ScoreChunkDto F) → Outcome (List (ScoreChunkDto F))
  rerank request chunks = or_panic (
      rerank_chunks floats fresh chunks request.sort_by request.tag_weights request.use_weights
        request.location_bias)

  abbrev pub cross_encode :
      SearchRequest F → List (ScoreChunkDto F) → Outcome (List (ScoreChunkDto F))
  cross_encode request chunks =
      chain (returned (to_single_query request.query))
        (λ query. cross_encoder floats fresh reranker query (page_of request) chunks)

  -- The end of `search_chunks_query`.
  unfoldable pub rank_chunks :
      SearchRequest F → List (ScoreChunkDto F) → Outcome (List (ScoreChunkDto F))
  rank_chunks request chunks =
      if request.cross_encode
      then chain (cross_encode request chunks)
          (λ encoded. rerank request (above_threshold request.score_threshold encoded))
      else rerank request chunks

  abbrev pub slim_form : ChunkMetadataTypes F → ChunkMetadataTypes F
  slim_form (full chunk) = slim (to_slim (metadata_of fresh (full chunk)))
  slim_form (content chunk) = slim (to_slim (metadata_of fresh (content chunk)))
  slim_form (slim chunk) = slim chunk

  abbrev pub slim_chunk : ScoreChunkDto F → ScoreChunkDto F
  slim_chunk chunk = record chunk { metadata = map slim_form chunk.metadata }

  abbrev pub slim_if : Bool → List (ScoreChunkDto F) → List (ScoreChunkDto F)
  slim_if true chunks = map slim_chunk chunks
  slim_if false chunks = chunks

  -- The end of `search_hybrid_chunks`.
  unfoldable pub rank_hybrid :
      SearchRequest F → List (ScoreChunkDto F) → Outcome (List (ScoreChunkDto F))
  rank_hybrid request chunks = chain (cross_encode request chunks) (λ encoded.
      chain (rerank request (above_threshold request.score_threshold encoded)) (λ reranked.
        returned
          (ok (slim_if (unwrap_or request.slim_chunks false) (take (page_of request) reranked)))))

  -- The end of `search_hybrid_groups`: of more than 20 results the first 20 are ranked, and the next
  -- 20 follow them.
  unfoldable pub rank_hybrid_group :
      SearchRequest F → List (ScoreChunkDto F) → Outcome (List (ScoreChunkDto F))
  rank_hybrid_group request chunks =
      if leb (length chunks) 20
      then chain (cross_encode request chunks) (λ encoded.
        chain (rerank request encoded)
          (λ reranked. returned (ok (above_threshold request.score_threshold reranked))))
      else chain (cross_encode request (take 20 chunks)) (λ encoded.
        chain (rerank request encoded) (λ reranked.
          returned
            (ok (above_threshold request.score_threshold (reranked ++ take 20 (drop 20 chunks))))))

  -- `search_hybrid_groups` from the results of the vector store on.
  unfoldable pub answer_hybrid_group :
      Retrieval F → SearchRequest F → List (SearchResult F) → Outcome (List (ScoreChunkDto F))
  answer_hybrid_group retrieval request results =
      chain (retrieve_chunks_from_point_ids fresh retrieval request (unique_points results))
        (rank_hybrid_group request)

  -- `search_hybrid_chunks` from the results of the vector store on.
  unfoldable pub answer_hybrid :
      Retrieval F → SearchRequest F → List (SearchResult F) → Outcome (List (ScoreChunkDto F))
  answer_hybrid retrieval request results =
      chain (retrieve_chunks_from_point_ids fresh retrieval request results) (rank_hybrid request)

  -- `search_chunks_query` from the results of the vector store on.
  unfoldable pub answer_chunks :
      Retrieval F → SearchRequest F → List (SearchResult F) → Outcome (List (ScoreChunkDto F))
  answer_chunks retrieval request results =
      chain (retrieve_chunks_from_point_ids fresh retrieval request results) (rank_chunks request)
