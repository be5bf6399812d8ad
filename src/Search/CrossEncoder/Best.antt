-- ===== src/Search/CrossEncoder/Best.antt =====
-- What cross_encoder of server/src/operators/model_operator.rs answers.
use trieve.Prelude.{
  ℕ, zero, suc, ◌+◌, ◌≤◌, ◌<◌, ◌==◌, true, false, subst, if◌then◌else◌, length-take, ◌≡◌, ◌≢◌, refl,
  sym, ap, ◌∙◌, arith, inl, inr, String, some, List, [], ◌∷◌, ◌++◌, map, length, leb, take, drop,
  take-append-drop, length-drop, Bool-cases, Option-cases, some-injective, none-ne-some,
}
use mathlib.Core.List.{append-nil}
use trieve.Errors.{Result, ok, err, Outcome, returned, panicked}
use trieve.Chunks.{ScoreChunkDto, Fresh}
use trieve.Search.Filter.Wanted.{chain_ok, returned-injective}
use trieve.Search.Sort.{sort_by}
use trieve.Search.Rerank.{Floats, by_score}
use trieve.Search.CrossEncoder.{
  Reranker, batches, flatten, also, request_docs, set_score, set_scores, score_batch, score_batches,
  score_all, all_comparable, best_of, cross_encoder,
}

-- A list is the concatenation of its batches, with as much fuel as it has elements.
flatten-batches :
    {A : Type 0} (fuel : ℕ) (xs : List A) → length xs ≤ fuel → flatten (batches fuel xs) ≡ xs
unfolding batches
flatten-batches zero [] h = refl
flatten-batches zero (x ∷ xs) h = absurd (omega (arith, h))
flatten-batches (suc fuel) [] h = refl
flatten-batches (suc fuel) (x ∷ xs) h =
    ap (λ ys. take 20 (x ∷ xs) ++ ys)
      (flatten-batches fuel (drop 20 (x ∷ xs)) (omega (arith, h, length-drop 19 xs)))
    ∙ take-append-drop 20 (x ∷ xs)

-- No batch has more than 20 elements.
abbrev pub AllShort : {A : Type 0} → List (List A) → Type 0
AllShort [] = Unit {0}
AllShort (part ∷ parts) = (length part ≤ 20) × AllShort parts

AllShort-batches : {A : Type 0} (fuel : ℕ) (xs : List A) → AllShort (batches fuel xs)
unfolding batches
AllShort-batches zero xs = tt
AllShort-batches (suc fuel) [] = tt
AllShort-batches (suc fuel) (x ∷ xs) =
    (omega (arith, length-take 20 (x ∷ xs)), AllShort-batches fuel (drop 20 (x ∷ xs)))

result_of : {A : Type 0} {r : Result A} {a : A} → returned r ≡ returned (ok a) → r ≡ ok a
result_of h = cc

-- The score that the last of the pairs with an index gives, or the old one without such a pair.
abbrev pub last_score : {F : Type 0} → List (ℕ × F) → ℕ → F → F
last_score [] i old = old
last_score ((j, score) ∷ pairs) i old = last_score pairs i (if j == i then score else old)

-- The results, the first of which has index i, with their last scores and all else as it was.
abbrev pub rescored :
    {F : Type 0} → List (ℕ × F) → ℕ → List (ScoreChunkDto F) → List (ScoreChunkDto F)
rescored pairs i [] = []
rescored pairs i (result ∷ results) =
    record result { score = last_score pairs i result.score } ∷ rescored pairs (suc i) results

also_ok :
    {A : Type 0} (o : Outcome A) (rest : Outcome (List A)) (out : List A)
    → also o rest ≡ returned (ok out)
    → (x : A) × (xs : List A) × (o ≡ returned (ok x)) × (rest ≡ returned (ok xs)) × (x ∷ xs ≡ out)
also_ok panicked rest out h = cc
also_ok (returned (err e)) panicked out h = cc
also_ok (returned (ok x)) panicked out h = cc
also_ok (returned (err e)) (returned (err d)) out h = cc
also_ok (returned (err e)) (returned (ok xs)) out h = cc
also_ok (returned (ok x)) (returned (err e)) out h = cc
also_ok (returned (ok x)) (returned (ok xs)) out h = (x, xs, refl, refl, returned-injective h)

panicked-ne-ok : {A : Type 0} {a : A} → panicked ≢ returned (ok a)
panicked-ne-ok h = cc

module _ {F : Type 0} (floats : Floats F) (fresh : Fresh) (reranker : Reranker F) where
  -- The results have the scores that the model server has given for their texts.
  abbrev pub Scored : String → List (ScoreChunkDto F) → List (ScoreChunkDto F) → Type 0
  Scored query results after =
      (docs : List String) × (pairs : List (ℕ × F)) × (request_docs floats fresh reranker results
        ≡ returned (ok docs))
      × (reranker.call query docs ≡ ok pairs)
      × (after ≡ rescored pairs 0 results)

  abbrev pub AllScored :
      String → List (List (ScoreChunkDto F)) → List (List (ScoreChunkDto F)) → Type 0
  AllScored query [] [] = Unit {0}
  AllScored query (part ∷ parts) (after ∷ afters) =
      (length part ≤ 20) × Scored query part after × AllScored query parts afters
  AllScored query _ _ = ⊥

  -- The results in batches of at most 20, each with the scores for its texts.
  abbrev pub InBatches : String → List (ScoreChunkDto F) → List (ScoreChunkDto F) → Type 0
  InBatches query results scored =
      (parts afters : List (List (ScoreChunkDto F))) × (flatten parts ≡ results)
      × (flatten afters ≡ scored)
      × AllScored query parts afters

  rescored-nil : (i : ℕ) (results : List (ScoreChunkDto F)) → rescored [] i results ≡ results
  rescored-nil i [] = refl
  rescored-nil i (x ∷ xs) = ap (λ ys. x ∷ ys) (rescored-nil (suc i) xs)

  rescored-cons :
      (pair : ℕ × F) (pairs : List (ℕ × F)) (i : ℕ) (results : List (ScoreChunkDto F))
      → rescored pairs i (rescored (pair ∷ []) i results) ≡ rescored (pair ∷ pairs) i results
  rescored-cons pair pairs i [] = refl
  rescored-cons pair pairs i (x ∷ xs) =
      ap (λ ys. record x { score = last_score (pair ∷ pairs) i x.score } ∷ ys)
        (rescored-cons pair pairs (suc i) xs)

  -- An index that has been passed changes nothing.
  rescored-past :
      (j i : ℕ) (score : F) (results : List (ScoreChunkDto F))
      → j < i
      → rescored ((j, score) ∷ []) i results ≡ results
  rescored-past j i score [] h = refl
  rescored-past j i score (x ∷ xs) h =
      let ne : (j == i) ≡ false = ground arith in
      rw (ne) (ap (λ ys. x ∷ ys) (rescored-past j (suc i) score xs (omega arith)))

  set_score-rescored :
      (index i j : ℕ) (score : F) (results after : List (ScoreChunkDto F))
      → j ≡ i + index
      → set_score floats fresh reranker index score results ≡ some after
      → after ≡ rescored ((j, score) ∷ []) i results
  unfolding set_score
  set_score-rescored index i j score [] after e h = absurd (none-ne-some h)
  set_score-rescored zero i j score (result ∷ results) after e h =
      let eq : (j == i) ≡ true = ground arith in
      sym (some-injective h)
      ∙ rw (eq) (
          ap (λ ys. record result { score = score } ∷ ys)
            (sym (rescored-past j (suc i) score results (omega arith))))
  set_score-rescored (suc index) i j score (result ∷ results) after e h =
      let ne : (j == i) ≡ false = ground arith in
      elim (Option-cases (set_score floats fresh reranker index score results)) [
        | inl a ↦ absurd (none-ne-some (rw (a) at h))
        | inr (rest, a) ↦
            sym (some-injective (rw (a) at h))
            ∙ rw (ne) (
                ap (λ ys. result ∷ ys)
                  (set_score-rescored index (suc i) j score results rest (omega arith) a))
      ]

  set_scores-rescored :
      (pairs : List (ℕ × F)) (results after : List (ScoreChunkDto F))
      → set_scores floats fresh reranker pairs results ≡ returned (ok after)
      → after ≡ rescored pairs 0 results
  unfolding set_scores
  set_scores-rescored [] results after h = sym (returned-injective h) ∙ sym (rescored-nil 0 results)
  set_scores-rescored ((index, score) ∷ pairs) results after h =
      elim (Option-cases (set_score floats fresh reranker index score results)) [
        | inl a ↦ absurd (panicked-ne-ok (rw (set_scores, a) at h))
        | inr (rest, a) ↦
            set_scores-rescored pairs rest after (rw (set_scores, a) at h)
            ∙ ap (rescored pairs 0)
                (set_score-rescored index 0 index score results rest (omega arith) a)
            ∙ rescored-cons (index, score) pairs 0 results
      ]

  score_batch-Scored :
      (query : String) (results after : List (ScoreChunkDto F))
      → score_batch floats fresh reranker query results ≡ returned (ok after)
      → Scored query results after
  unfolding score_batch
  score_batch-Scored query results after h =
      let (docs, a, f) = chain_ok (request_docs floats fresh reranker results) _ after h in
      let (pairs, b, g) = chain_ok (returned (reranker.call query docs)) _ after f in
      (docs, pairs, a, result_of b, set_scores-rescored pairs results after g)

  score_batches-AllScored :
      (query : String) (parts scored : List (List (ScoreChunkDto F)))
      → AllShort parts
      → score_batches floats fresh reranker query parts ≡ returned (ok scored)
      → AllScored query parts scored
  unfolding score_batches
  score_batches-AllScored query [] scored s h = subst (AllScored query []) (returned-injective h) tt
  score_batches-AllScored query (part ∷ parts) scored (short, s) h =
      let (x, xs, a, b, e) =
        also_ok (score_batch floats fresh reranker query part)
          (score_batches floats fresh reranker query parts) scored h in
      subst (AllScored query (part ∷ parts)) e
        (short, score_batch-Scored query part x a, score_batches-AllScored query parts xs s b)

  score_all-InBatches :
      (query : String) (results after : List (ScoreChunkDto F))
      → score_all floats fresh reranker query results ≡ returned (ok after)
      → InBatches query results after
  unfolding score_all
  score_all-InBatches query results after h = elim (Bool-cases (leb (length results) 20)) [
    | inl a ↦ (
      results ∷ [],
      after ∷ [],
      append-nil results,
      append-nil after,
      (ground arith, score_batch-Scored query results after (rw (score_all, a) at h), tt),
    )
    | inr a ↦
        let (scored, b, f) =
          chain_ok (score_batches floats fresh reranker query (batches (length results) results)) _
            after (rw (score_all, a) at h) in
        (
          batches (length results) results,
          scored,
          flatten-batches (length results) results (omega arith),
          returned-injective f,
          score_batches-AllScored query (batches (length results) results) scored
              (AllShort-batches (length results) results) b,
        )
  ]

  take-nil : (n : ℕ) → take n (sort_by (by_score floats fresh) []) ≡ []
  unfolding sort_by
  take-nil zero = refl
  take-nil (suc n) = refl

  -- If the cross encoder answers, then with the best of the results by their new scores, at most as
  -- many as fit on the page. The results are asked for in batches of at most 20; each has the last
  -- score that the model server gives for its index in its batch, or its old score where there is
  -- none, and is the same otherwise; then they are sorted by these scores and cut off.
  pub cross_encoder-best :
      (query : String) (page_size : ℕ) (results out : List (ScoreChunkDto F))
      → cross_encoder floats fresh reranker query page_size results ≡ returned (ok out)
      → (scored : List (ScoreChunkDto F)) × InBatches query results scored
        × (out ≡ take page_size (sort_by (by_score floats fresh) scored))
  unfolding cross_encoder best_of
  cross_encoder-best query page_size [] out h =
      ([], ([], [], refl, refl, tt), sym (returned-injective h) ∙ sym (take-nil page_size))
  cross_encoder-best query page_size (result ∷ results) out h =
      let (scored, a, f) =
        chain_ok (score_all floats fresh reranker query (result ∷ results)) _ out h in
      elim (Bool-cases (all_comparable floats fresh reranker (map (λ r. r.score) scored))) [
        | inl b ↦ (
          scored,
          score_all-InBatches query (result ∷ results) scored a,
          sym (returned-injective (rw (best_of, b) at f)),
        )
        | inr b ↦ absurd (panicked-ne-ok (rw (best_of, b) at f))
      ]
