-- ===== src/Search/Retrieve.antt =====
-- retrieve_chunks_from_point_ids of server/src/operators/search_operator.rs: the chunks of the results
-- of the vector store, with highlights.
pub mod Retrieved
use trieve.Prelude.{
  ℕ, String, Bool, true, false, not, ◌&&◌, ◌==◌, Option, none, some, List, [], ◌∷◌, ◌++◌, map, find,
  length, leb, take, drop, unwrap_or, if◌then◌else◌, retain,
}
use trieve.Errors.{bad_request, Result, ok, err, Outcome, returned, panicked, chain}
use trieve.Models.{Uuid}
use trieve.Chunks.{
  ChunkMetadata, ChunkMetadataTypes, slim, full, content, ScoreChunkDto, Fresh, metadata_of,
  to_string_tag_set, to_content, to_slim,
}
use trieve.Search.Rerank.{Floats, GeoInfoWithBias, SortByField}

pub record SearchResult (F : Type 0) : Type 0 where
  pub score : F
  pub point_id : Uuid

pub data HighlightStrategy : Type 0 where
  exact_match v1 : HighlightStrategy

-- `rest` is the text of the options that the highlighter reads.
pub record HighlightOptions : Type 0 where
  pub highlight_results : Option Bool
  pub highlight_strategy : Option HighlightStrategy
  pub rest : String

-- `SearchChunksReqPayload`, as far as it is read after the search. `query` is the text of a single
-- query.
pub record SearchRequest (F : Type 0) : Type 0 where
  pub query : Option String
  pub is_hybrid : Bool
  pub slim_chunks : Option Bool
  pub content_only : Option Bool
  pub highlight_options : Option HighlightOptions
  pub page_size : Option ℕ
  pub score_threshold : Option F
  pub sort_by : Option SortByField
  pub cross_encode : Bool
  pub tag_weights : Option (List (String × F))
  pub use_weights : Option Bool
  pub location_bias : Option (GeoInfoWithBias F)

-- The database by point ids, whose queries panic without a connection, and the two highlighters.
pub record Retrieval (F : Type 0) : Type 0 where
  pub get_slim_chunks : List Uuid → Outcome (List (ChunkMetadataTypes F))
  pub get_content_chunks : List Uuid → Outcome (List (ChunkMetadataTypes F))
  pub get_metadata_chunks : List Uuid → Outcome (List (ChunkMetadataTypes F))
  pub get_highlights : ChunkMetadata F → String → String → Outcome (ChunkMetadata F × List String)
  pub get_highlights_with_exact_match :
      ChunkMetadata F → String → String → Outcome (ChunkMetadata F × List String)

module _ {F : Type 0} (fresh : Fresh) (retrieval : Retrieval F) where
  abbrev pub wants_slim : SearchRequest F → Bool
  wants_slim request = unwrap_or request.slim_chunks false

  unfoldable pub get_chunks : SearchRequest F → List Uuid → Outcome (List (ChunkMetadataTypes F))
  get_chunks request ids =
      if wants_slim request && not request.is_hybrid
      then retrieval.get_slim_chunks ids
      else if unwrap_or request.content_only false
      then retrieval.get_content_chunks ids
      else retrieval.get_metadata_chunks ids

  abbrev pub run_highlighter :
      Option HighlightStrategy
      → ChunkMetadata F
      → String
      → String
      → Outcome (ChunkMetadata F × List String)
  run_highlighter (some v1) = retrieval.get_highlights
  run_highlighter _ = retrieval.get_highlights_with_exact_match

  -- `unwrap_or((chunk, vec![]))`
  abbrev pub or_plain :
      ChunkMetadata F
      → Outcome (ChunkMetadata F × List String)
      → Outcome (ChunkMetadata F × List String)
  or_plain chunk panicked = panicked
  or_plain chunk (returned (ok highlighted_chunk)) = returned (ok highlighted_chunk)
  or_plain chunk (returned (err e)) = returned (ok (chunk, []))

  abbrev pub highlight :
      HighlightOptions → ChunkMetadata F → String → Outcome (ChunkMetadata F × List String)
  highlight options chunk query =
      or_plain chunk (run_highlighter options.highlight_strategy chunk query options.rest)

  -- `match chunk`: the highlighted chunk in the form of the chunk. A slim one is `unreachable!`.
  abbrev pub in_form : ChunkMetadataTypes F → ChunkMetadata F → Outcome (ChunkMetadataTypes F)
  in_form (full _) highlighted = returned (ok (full (to_string_tag_set highlighted)))
  in_form (content _) highlighted = returned (ok (content (to_content highlighted)))
  in_form (slim _) highlighted = panicked

  abbrev pub dto : ChunkMetadataTypes F → Option (List String) → F → ScoreChunkDto F
  dto chunk highlights score = record {
    metadata = chunk ∷ [];
    highlights = highlights;
    score = score;
  }

  unfoldable pub highlighted :
      SearchRequest F → F → ChunkMetadataTypes F → Outcome (ScoreChunkDto F)
  highlighted request score chunk = elim request.highlight_options [
    | none ↦ returned (ok (dto chunk none score))
    | some options ↦ elim request.query [
      | none ↦ returned (ok (dto chunk none score))
      | some query ↦
          if unwrap_or options.highlight_results true && not (wants_slim request)
          then chain (highlight options (metadata_of fresh chunk) query) (λ found.
            chain (in_form chunk found.0) (λ form. returned (ok (dto form (some found.1) score))))
          else returned (ok (dto chunk none score))
    ]
  ]

  abbrev pub is_of : Uuid → ChunkMetadataTypes F → Bool
  is_of point chunk = (metadata_of fresh chunk).qdrant_point_id == point

  -- `filter_map(|search_result| ..)`: a result whose chunk is not found is left out.
  unfoldable pub score_chunks :
      SearchRequest F
      → List (ChunkMetadataTypes F)
      → List (SearchResult F)
      → Outcome (List (ScoreChunkDto F))
  score_chunks request chunks [] = returned (ok [])
  score_chunks request chunks (result ∷ results) = elim (find (is_of result.point_id) chunks) [
    | none ↦ score_chunks request chunks results
    | some chunk ↦ chain (highlighted request result.score chunk) (λ scored.
        chain (score_chunks request chunks results) (λ rest. returned (ok (scored ∷ rest))))
  ]

  unfoldable pub retrieve_chunks_from_point_ids :
      SearchRequest F → List (SearchResult F) → Outcome (List (ScoreChunkDto F))
  retrieve_chunks_from_point_ids request results =
      chain (get_chunks request (map (λ r. r.point_id) results))
        (λ chunks. score_chunks request chunks results)
