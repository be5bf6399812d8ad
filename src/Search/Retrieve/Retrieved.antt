-- ===== src/Search/Retrieve/Retrieved.antt =====
-- Which chunks retrieve_chunks_from_point_ids of server/src/operators/search_operator.rs answers with.
use trieve.Prelude.{
  ◌≡◌, refl, subst, inl, inr, String, Option, none, not, Bool, true, false, ◌&&◌, some, List, [],
  ◌∷◌, map, find, unwrap_or, Bool-cases, Option-cases, some-injective, none-ne-some,
}
use trieve.Errors.{ok, err, Outcome, returned, panicked, chain}
use trieve.Models.{Uuid}
use trieve.Chunks.{ChunkMetadata, ChunkMetadataTypes, slim, full, content, Fresh, metadata_of}
use trieve.Search.Filter.Wanted.{all}
use trieve.Search.Condition.Panics.{returns}
use trieve.Search.Retrieve.{
  SearchResult, SearchRequest, Retrieval, HighlightStrategy, exact_match, v1, run_highlighter,
  or_plain, highlight, wants_slim, get_chunks, in_form, highlighted, is_of, score_chunks,
  retrieve_chunks_from_point_ids,
}

abbrev pub not_slim : {F : Type 0} → ChunkMetadataTypes F → Bool
not_slim (slim chunk) = false
not_slim (full chunk) = true
not_slim (content chunk) = true

returns-chain :
    {A B : Type 0} (o : Outcome A) (f : A → Outcome B)
    → returns o ≡ true
    → ((a : A) → o ≡ returned (ok a) → returns (f a) ≡ true)
    → returns (chain o f) ≡ true
returns-chain panicked f h k = h
returns-chain (returned (err e)) f h k = refl
returns-chain (returned (ok a)) f h k = k a refl

both : (a b : Bool) → (a && b) ≡ true → (a ≡ true) × (b ≡ true)
both true b h = (refl, h)
both false b h = (h, cc)

found_not_slim :
    {F : Type 0} (test : ChunkMetadataTypes F → Bool) (chunks : List (ChunkMetadataTypes F))
    (chunk : ChunkMetadataTypes F)
    → all not_slim chunks ≡ true
    → find test chunks ≡ some chunk
    → not_slim chunk ≡ true
found_not_slim test [] chunk h f = absurd (none-ne-some f)
found_not_slim test (c ∷ chunks) chunk h f = elim (Bool-cases (test c)) [
  | inl a ↦
      subst (λ x. not_slim x ≡ true) (some-injective (rw (a) at f))
        (both (not_slim c) (all not_slim chunks) h).0
  | inr a ↦
      found_not_slim test chunks chunk (both (not_slim c) (all not_slim chunks) h).1 (rw (a) at f)
]

module _ {F : Type 0} (fresh : Fresh) (retrieval : Retrieval F) where
  -- The two highlighters return.
  abbrev pub HighlightersReturn : Type 0
  HighlightersReturn =
      (chunk : ChunkMetadata F) (query rest : String)
      → (returns (retrieval.get_highlights chunk query rest) ≡ true)
        × (returns (retrieval.get_highlights_with_exact_match chunk query rest) ≡ true)

  returns-or_plain :
      (chunk : ChunkMetadata F) (o : Outcome (ChunkMetadata F × List String))
      → returns o ≡ true
      → returns (or_plain fresh retrieval chunk o) ≡ true
  returns-or_plain chunk panicked h = h
  returns-or_plain chunk (returned (ok x)) h = refl
  returns-or_plain chunk (returned (err e)) h = refl

  returns-run :
      (strategy : Option HighlightStrategy) (chunk : ChunkMetadata F) (query rest : String)
      → HighlightersReturn
      → returns (run_highlighter fresh retrieval strategy chunk query rest) ≡ true
  returns-run none chunk query rest h = (h chunk query rest).1
  returns-run (some v1) chunk query rest h = (h chunk query rest).0
  returns-run (some exact_match) chunk query rest h = (h chunk query rest).1

  returns-in_form :
      (chunk : ChunkMetadataTypes F) (marked : ChunkMetadata F)
      → not_slim chunk ≡ true
      → returns (in_form fresh retrieval chunk marked) ≡ true
  returns-in_form (slim chunk) marked h = h
  returns-in_form (full chunk) marked h = refl
  returns-in_form (content chunk) marked h = refl

  -- Where chunks are marked, they are no slim ones.
  abbrev Marks : SearchRequest F → Bool → Type 0
  Marks request plain = wants_slim fresh retrieval request ≡ false → plain ≡ true

  returns-highlighted :
      (request : SearchRequest F) (score : F) (chunk : ChunkMetadataTypes F)
      → HighlightersReturn
      → Marks request (not_slim chunk)
      → returns (highlighted fresh retrieval request score chunk) ≡ true
  unfolding highlighted
  returns-highlighted request score chunk hs h = elim (Option-cases request.highlight_options) [
    | inl a ↦ rw (highlighted, a) refl
    | inr (options, a) ↦ elim (Option-cases request.query) [
      | inl b ↦ rw (highlighted, a, b) refl
      | inr (query, b) ↦ elim (Bool-cases (unwrap_or options.highlight_results true)) [
        | inr c ↦ rw (highlighted, a, b, c) refl
        | inl c ↦ elim (Bool-cases (wants_slim fresh retrieval request)) [
          | inl d ↦ rw (highlighted, a, b, c, d) refl
          | inr d ↦
              rw (highlighted, a, b, c, d)
                (returns-chain (highlight fresh retrieval options (metadata_of fresh chunk) query) _
                  (returns-or_plain (metadata_of fresh chunk) _ (
                    returns-run options.highlight_strategy (metadata_of fresh chunk) query
                      options.rest hs))
                  (λ found e.
                    returns-chain (in_form fresh retrieval chunk found.0) _
                      (returns-in_form chunk found.0 (h d)) (λ form f. refl)))
        ]
      ]
    ]
  ]

  returns-score_chunks :
      (request : SearchRequest F) (chunks : List (ChunkMetadataTypes F))
      (results : List (SearchResult F))
      → HighlightersReturn
      → Marks request (all not_slim chunks)
      → returns (score_chunks fresh retrieval request chunks results) ≡ true
  unfolding score_chunks
  returns-score_chunks request chunks [] hs h = refl
  returns-score_chunks request chunks (result ∷ results) hs h =
      elim (Option-cases (find (is_of fresh retrieval result.point_id) chunks)) [
        | inl a ↦ rw (score_chunks, a) (returns-score_chunks request chunks results hs h)
        | inr (chunk, a) ↦
            rw (score_chunks, a)
              (returns-chain (highlighted fresh retrieval request result.score chunk) _
                (returns-highlighted request result.score chunk hs (λ s.
                  found_not_slim (is_of fresh retrieval result.point_id) chunks chunk (h s) a))
                (λ scored e.
                  returns-chain (score_chunks fresh retrieval request chunks results) _
                    (returns-score_chunks request chunks results hs h) (λ rest f. refl)))
      ]

  -- The two queries answer with the forms that they are named for.
  abbrev pub Forms : Type 0
  Forms =
      ((ids : List Uuid) (chunks : List (ChunkMetadataTypes F))
        → retrieval.get_content_chunks ids ≡ returned (ok chunks)
        → all not_slim chunks ≡ true)
      × ((ids : List Uuid) (chunks : List (ChunkMetadataTypes F))
          → retrieval.get_metadata_chunks ids ≡ returned (ok chunks)
          → all not_slim chunks ≡ true)

  get_chunks-Marks :
      (request : SearchRequest F) (ids : List Uuid) (chunks : List (ChunkMetadataTypes F))
      → Forms
      → get_chunks fresh retrieval request ids ≡ returned (ok chunks)
      → Marks request (all not_slim chunks)
  unfolding get_chunks
  get_chunks-Marks request ids chunks (h, k) g s =
      elim (Bool-cases (unwrap_or request.content_only false)) [
        | inl a ↦ h ids chunks (rw (get_chunks, s, a) at g)
        | inr a ↦ k ids chunks (rw (get_chunks, s, a) at g)
      ]

  -- The queries for chunks return.
  abbrev pub QueriesReturn : Type 0
  QueriesReturn =
      ((ids : List Uuid) → returns (retrieval.get_slim_chunks ids) ≡ true)
      × ((ids : List Uuid) → returns (retrieval.get_content_chunks ids) ≡ true)
      × ((ids : List Uuid) → returns (retrieval.get_metadata_chunks ids) ≡ true)

  returns-get_chunks :
      (request : SearchRequest F) (ids : List Uuid)
      → QueriesReturn
      → returns (get_chunks fresh retrieval request ids) ≡ true
  unfolding get_chunks
  returns-get_chunks request ids (a, b, c) =
      elim (Bool-cases (wants_slim fresh retrieval request && not request.is_hybrid)) [
        | inl s ↦ rw (get_chunks, s) (a ids)
        | inr s ↦ elim (Bool-cases (unwrap_or request.content_only false)) [
          | inl t ↦ rw (get_chunks, s, t) (b ids)
          | inr t ↦ rw (get_chunks, s, t) (c ids)
        ]
      ]

  -- Where the queries for chunks and the highlighters return, and the queries for content and for
  -- metadata do not answer with slim chunks, the retrieval returns, with chunks or with an error: its
  -- `unreachable!` is not reached.
  pub retrieve_chunks_from_point_ids-returns :
      (request : SearchRequest F) (results : List (SearchResult F))
      → QueriesReturn
      → HighlightersReturn
      → Forms
      → returns (retrieve_chunks_from_point_ids fresh retrieval request results) ≡ true
  unfolding retrieve_chunks_from_point_ids
  retrieve_chunks_from_point_ids-returns request results queries highlighters forms =
      returns-chain (get_chunks fresh retrieval request (map (λ r. r.point_id) results)) _
        (returns-get_chunks request (map (λ r. r.point_id) results) queries)
        (λ chunks e.
          returns-score_chunks request chunks results highlighters
            (get_chunks-Marks request (map (λ r. r.point_id) results) chunks forms e))
