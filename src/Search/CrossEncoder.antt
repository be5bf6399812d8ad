-- ===== src/Search/CrossEncoder.antt =====
-- cross_encoder of server/src/operators/model_operator.rs: new scores for results from a model.
pub mod Best
use Prim.Native.Nat.{Ordering}
use trieve.Prelude.{
  ℕ, zero, suc, String, Bool, true, false, Option, none, some, List, [], ◌∷◌, ◌++◌, ◌||◌, ◌&&◌, map,
  length, leb, take, drop, is_some, unwrap_or, if◌then◌else◌,
}
use trieve.Errors.{bad_request, Result, ok, err, Outcome, returned, panicked, chain}
use trieve.Chunks.{ChunkMetadataTypes, slim, full, content, ScoreChunkDto, Fresh}
use trieve.Search.Sort.{sort_by}
use trieve.Search.Rerank.{Floats, by_score}

-- The model server, which answers with indexes and scores, and the HTML parser.
pub record Reranker (F : Type 0) : Type 0 where
  pub call : String → List String → Result (List (ℕ × F))
  pub html_to_text : String → String

-- `chunks_mut(20)`, on fuel: a list has no more batches than elements.
unfoldable pub batches : {A : Type 0} → ℕ → List A → List (List A)
batches zero xs = []
batches (suc fuel) [] = []
batches (suc fuel) (x ∷ xs) = take 20 (x ∷ xs) ∷ batches fuel (drop 20 (x ∷ xs))

abbrev pub flatten : {A : Type 0} → List (List A) → List A
flatten [] = []
flatten (xs ∷ xss) = xs ++ flatten xss

-- All the batches have been run before the results are looked at: a panic of one is a panic of all,
-- and else the first error counts.
abbrev pub also : {A : Type 0} → Outcome A → Outcome (List A) → Outcome (List A)
also panicked rest = panicked
also (returned r) panicked = panicked
also (returned (err e)) (returned rest) = returned (err e)
also (returned (ok x)) (returned (err e)) = returned (err e)
also (returned (ok x)) (returned (ok xs)) = returned (ok (x ∷ xs))

module _ {F : Type 0} (floats : Floats F) (fresh : Fresh) (reranker : Reranker F) where
  -- `match x.metadata[0]`
  abbrev pub doc_of : ScoreChunkDto F → Outcome String
  doc_of result = elim result.metadata [
    | [] ↦ panicked
    | m ∷ _ ↦ elim m [
      | full chunk ↦ returned (ok (reranker.html_to_text (unwrap_or chunk.chunk_html "")))
      | slim chunk ↦ returned (err (bad_request "Metadata not found"))
      | content chunk ↦ returned (err (bad_request "Metadata not found"))
    ]
  ]

  unfoldable pub request_docs : List (ScoreChunkDto F) → Outcome (List String)
  request_docs [] = returned (ok [])
  request_docs (result ∷ results) =
      chain (doc_of result)
        (λ doc. chain (request_docs results) (λ docs. returned (ok (doc ∷ docs))))

  -- `results.index_mut(index).score = score`
  unfoldable pub set_score : ℕ → F → List (ScoreChunkDto F) → Option (List (ScoreChunkDto F))
  set_score index score [] = none
  set_score zero score (result ∷ results) = some (record result { score = score } ∷ results)
  set_score (suc index) score (result ∷ results) = elim (set_score index score results) [
    | none ↦ none
    | some after ↦ some (result ∷ after)
  ]

  unfoldable pub set_scores :
      List (ℕ × F) → List (ScoreChunkDto F) → Outcome (List (ScoreChunkDto F))
  set_scores [] results = returned (ok results)
  set_scores ((index, score) ∷ pairs) results = elim (set_score index score results) [
    | none ↦ panicked
    | some after ↦ set_scores pairs after
  ]

  unfoldable pub score_batch : String → List (ScoreChunkDto F) → Outcome (List (ScoreChunkDto F))
  score_batch query results =
      chain (request_docs results)
        (λ docs. chain (returned (reranker.call query docs)) (λ pairs. set_scores pairs results))

  unfoldable pub score_batches :
      String → List (List (ScoreChunkDto F)) → Outcome (List (List (ScoreChunkDto F)))
  score_batches query [] = returned (ok [])
  score_batches query (results ∷ rest) = also (score_batch query results) (score_batches query rest)

  unfoldable pub score_all : String → List (ScoreChunkDto F) → Outcome (List (ScoreChunkDto F))
  score_all query results =
      if leb (length results) 20
      then score_batch query results
      else chain (score_batches query (batches (length results) results))
          (λ scored. returned (ok (flatten scored)))

  abbrev pub all_comparable_to : F → List F → Bool
  all_comparable_to x [] = true
  all_comparable_to x (y ∷ ys) = is_some (floats.partial_cmp x y) && all_comparable_to x ys

  abbrev pub all_comparable : List F → Bool
  all_comparable [] = true
  all_comparable (x ∷ xs) = all_comparable_to x xs && all_comparable xs

  -- `sort_by(|a, b| b.score.partial_cmp(&a.score).unwrap())`, which panics where two scores of two or
  -- more cannot be compared, and `truncate`.
  unfoldable pub best_of : ℕ → List (ScoreChunkDto F) → Outcome (List (ScoreChunkDto F))
  best_of page_size results =
      if all_comparable (map (λ r. r.score) results)
      then returned (ok (take page_size (sort_by (by_score floats fresh) results)))
      else panicked

  unfoldable pub cross_encoder :
      String → ℕ → List (ScoreChunkDto F) → Outcome (List (ScoreChunkDto F))
  cross_encoder query page_size [] = returned (ok [])
  cross_encoder query page_size (result ∷ results) =
      chain (score_all query (result ∷ results)) (best_of page_size)
