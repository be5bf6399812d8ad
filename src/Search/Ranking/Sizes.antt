-- ===== src/Search/Ranking/Sizes.antt =====
-- How many chunks the hybrid searches of server/src/operators/search_operator.rs answer with.
use mathlib.Core.List.{Permᴰ}
use trieve.Prelude.{
  ℕ, suc, ◌+◌, ◌≤◌, ◌≡◌, refl, sym, ap, ◌∙◌, subst, arith, inl, inr, Bool, true, false, Option,
  none, some, List, [], ◌∷◌, ◌++◌, map, length, leb, take, drop, retain, unwrap_or, length-take,
  length-append, Bool-cases,
}
use trieve.Errors.{ok, returned}
use trieve.Chunks.{ScoreChunkDto, Fresh}
use trieve.Search.Filter.Wanted.{chain_ok, returned-injective}
use trieve.Search.Sort.{sort_by}
use trieve.Search.Rerank.{Floats, by_score}
use trieve.Search.Rerank.Laws.{payload}
use trieve.Search.Rerank.Order.{rerank_chunks-SameResults}
use trieve.Search.CrossEncoder.{Reranker}
use trieve.Search.CrossEncoder.Best.{cross_encoder-best}
use trieve.Search.Retrieve.{SearchRequest}
use trieve.Search.Ranking.{
  or_panic, above_threshold, to_single_query, page_of, rerank, cross_encode, slim_if, rank_hybrid,
  rank_hybrid_group,
}

length-map : {A B : Type 0} (f : A → B) (xs : List A) → length (map f xs) ≡ length xs
length-map f [] = refl
length-map f (x ∷ xs) = ap suc (length-map f xs)

length-Perm : {A : Type 0} {xs ys : List A} → Permᴰ xs ys → length xs ≡ length ys
length-Perm Permᴰ.nil = refl
length-Perm (Permᴰ.cons e p) = ap suc (length-Perm p)
length-Perm (Permᴰ.swap e d) = refl
length-Perm (Permᴰ.trans p q) = length-Perm p ∙ length-Perm q

length-retain : {A : Type 0} (test : A → Bool) (xs : List A) → length (retain test xs) ≤ length xs
length-retain test [] = omega arith
length-retain test (x ∷ xs) = elim (Bool-cases (test x)) [
  | inl b ↦ rw (b) (omega (arith, length-retain test xs))
  | inr b ↦ rw (b) (omega (arith, length-retain test xs))
]

take-short : {A : Type 0} (n : ℕ) (xs : List A) → length (take n xs) ≤ n
take-short n xs = omega (arith, length-take n xs)

module _ {F : Type 0} (floats : Floats F) (fresh : Fresh) (reranker : Reranker F) where
  length-above_threshold :
      (threshold : Option F) (chunks : List (ScoreChunkDto F))
      → length (above_threshold floats fresh reranker threshold chunks) ≤ length chunks
  length-above_threshold none chunks = omega arith
  length-above_threshold (some threshold) chunks = length-retain _ chunks

  length-slim_if :
      (b : Bool) (chunks : List (ScoreChunkDto F))
      → length (slim_if floats fresh reranker b chunks) ≡ length chunks
  length-slim_if true chunks = length-map _ chunks
  length-slim_if false chunks = refl

  length-cross_encode :
      (request : SearchRequest F) (chunks out : List (ScoreChunkDto F))
      → cross_encode floats fresh reranker request chunks ≡ returned (ok out)
      → length out ≤ page_of floats fresh reranker request
  length-cross_encode request chunks out h =
      let (query, a, f) =
        chain_ok (returned (to_single_query floats fresh reranker request.query)) _ out h in
      let (scored, same, e) = cross_encoder-best floats fresh reranker query _ chunks out f in
      subst (λ xs. length xs ≤ page_of floats fresh reranker request) (sym e)
        (take-short (page_of floats fresh reranker request)
          (sort_by (by_score floats fresh) scored))

  or_panic_ok :
      {A : Type 0} (o : Option A) (a : A)
      → or_panic floats fresh reranker o ≡ returned (ok a)
      → o ≡ some a
  or_panic_ok none a h = cc
  or_panic_ok (some b) a h = ap some (returned-injective h)

  length-rerank :
      (request : SearchRequest F) (chunks out : List (ScoreChunkDto F))
      → rerank floats fresh reranker request chunks ≡ returned (ok out)
      → length out ≡ length chunks
  length-rerank request chunks out h =
      sym (length-map payload out)
      ∙ length-Perm (
          rerank_chunks-SameResults floats fresh chunks out request.sort_by request.tag_weights
            request.use_weights request.location_bias (or_panic_ok _ out h))
      ∙ length-map payload chunks

  -- A hybrid search answers with no more chunks than fit on the page.
  rank_hybrid-length :
      (request : SearchRequest F) (chunks out : List (ScoreChunkDto F))
      → rank_hybrid floats fresh reranker request chunks ≡ returned (ok out)
      → length out ≤ page_of floats fresh reranker request
  unfolding rank_hybrid
  rank_hybrid-length request chunks out h =
      let (encoded, a, f) = chain_ok (cross_encode floats fresh reranker request chunks) _ out h in
      let (reranked, b, g) =
        chain_ok
          (rerank floats fresh reranker request
            (above_threshold floats fresh reranker request.score_threshold encoded))
          _ out f in
      subst (λ xs. length xs ≤ page_of floats fresh reranker request) (returned-injective g)
        (omega (
          arith,
          length-slim_if (unwrap_or request.slim_chunks false)
              (take (page_of floats fresh reranker request) reranked),
          take-short (page_of floats fresh reranker request) reranked,
        ))

  -- A hybrid search within a group answers with no more chunks than fit on the page and twenty more.
  pub rank_hybrid_group-length :
      (request : SearchRequest F) (chunks out : List (ScoreChunkDto F))
      → rank_hybrid_group floats fresh reranker request chunks ≡ returned (ok out)
      → length out ≤ page_of floats fresh reranker request + 20
  unfolding rank_hybrid_group
  rank_hybrid_group-length request chunks out h = elim (Bool-cases (leb (length chunks) 20)) [
    | inl s ↦
        let (encoded, a, f) =
          chain_ok (cross_encode floats fresh reranker request chunks) _ out
            (rw (rank_hybrid_group, s) at h) in
        let (reranked, b, g) = chain_ok (rerank floats fresh reranker request encoded) _ out f in
        subst (λ xs. length xs ≤ page_of floats fresh reranker request + 20) (returned-injective g)
          (omega (
            arith,
            length-above_threshold request.score_threshold reranked,
            length-rerank request encoded reranked b,
            length-cross_encode request chunks encoded a,
          ))
    | inr s ↦
        let (encoded, a, f) =
          chain_ok (cross_encode floats fresh reranker request (take 20 chunks)) _ out
            (rw (rank_hybrid_group, s) at h) in
        let (reranked, b, g) = chain_ok (rerank floats fresh reranker request encoded) _ out f in
        subst (λ xs. length xs ≤ page_of floats fresh reranker request + 20) (returned-injective g)
          (omega (
            arith,
            length-above_threshold request.score_threshold (reranked ++ take 20 (drop 20 chunks)),
            length-append reranked (take 20 (drop 20 chunks)),
            take-short 20 (drop 20 chunks),
            length-rerank request encoded reranked b,
            length-cross_encode request (take 20 chunks) encoded a,
          ))
  ]
