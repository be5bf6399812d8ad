-- ===== src/Search/Rerank/Order.antt =====
-- The results of rerank_chunks of server/src/operators/search_operator.rs, and their order.
use Prim.Native.Nat.{Ordering, compare}
use mathlib.Core.List.{Permᴰ}
use mathlib.Core.List.Permᴰ
use trieve.Prelude.{
  ℕ, ◌≡◌, refl, ◌∙◌, subst, arith, inl, inr, String, str_eq, Bool, true, false, Option, none, some,
  List, map, unwrap_or, if◌then◌else◌, Bool-cases, some-injective,
}
use trieve.Chunks.{ScoreChunkDto, Fresh}
use trieve.Search.Sort.{is_greater, sort_by, Sorted, Dual, Sorted-sort_by, sort_by-Perm}
use trieve.Search.Rerank.{
  Floats, GeoInfoWithBias, SortByField, SortOrder, cmp_option, apply_weights, bias_by_location,
  apply_tag_weights, by_score, by_time, by_number, ascending, sort_checked, sort_by_field,
  rerank_chunks, time_of, number_of,
}
use trieve.Search.Rerank.Laws.{
  chain_some, payload, SameResults, same-SameResults, apply_weights-payload,
  bias_by_location-payload, apply_tag_weights-payload, sort_checked-sorts,
}

-- A comparison in one direction is the reverse of the one in the other, as `PartialOrd` asks for.
abbrev pub DualOption : {A : Type 0} → (A → A → Option Ordering) → Type 0
DualOption {A} cmp =
    (a b : A)
    → is_greater (unwrap_or (cmp a b) Ordering.eq) ≡ true
    → is_greater (unwrap_or (cmp b a) Ordering.eq) ≡ false

pub dual_compare : (a b : ℕ) → is_greater (compare a b) ≡ true → is_greater (compare b a) ≡ false
dual_compare a b h = ground arith

dual_option :
    {A : Type 0} (cmp : A → A → Option Ordering) → DualOption cmp → DualOption (cmp_option cmp)
dual_option cmp d none none h = refl
dual_option cmp d none (some b) h = cc
dual_option cmp d (some a) none h = refl
dual_option cmp d (some a) (some b) h = d a b h

module _ {F : Type 0} (floats : Floats F) (fresh : Fresh) where
  sort_by-same :
      (cmp : ScoreChunkDto F → ScoreChunkDto F → Ordering) (chunks : List (ScoreChunkDto F))
      → SameResults (sort_by cmp chunks) chunks
  sort_by-same cmp chunks = sort_by-Perm cmp payload chunks

  sort_by_field-same :
      (sort : Option SortByField) (chunks after : List (ScoreChunkDto F))
      → sort_by_field floats fresh sort chunks ≡ some after
      → SameResults after chunks
  unfolding sort_by_field
  sort_by_field-same none chunks after h =
      subst (λ xs. SameResults xs chunks) (some-injective h) (Permᴰ.refl (map payload chunks))
  sort_by_field-same (some sort) chunks after h =
      elim (Bool-cases (str_eq sort.field "time_stamp")) [
        | inl a ↦
            subst (λ xs. SameResults xs chunks)
              (sort_checked-sorts floats fresh _ chunks after (rw (sort_by_field, a) at h))
              (sort_by-same _ chunks)
        | inr a ↦ elim (Bool-cases (str_eq sort.field "num_value")) [
          | inl b ↦
              subst (λ xs. SameResults xs chunks)
                (sort_checked-sorts floats fresh _ chunks after (rw (sort_by_field, a, b) at h))
                (sort_by-same _ chunks)
          | inr b ↦
              subst (λ xs. SameResults xs chunks) (some-injective (rw (sort_by_field, a, b) at h))
                (Permᴰ.refl (map payload chunks))
        ]
      ]

  -- If the reranking does not panic, it returns the results that it was given, each of them once,
  -- with its metadata and its highlights.
  pub rerank_chunks-SameResults :
      (chunks after : List (ScoreChunkDto F)) (sort : Option SortByField)
      (tag_weights : Option (List (String × F))) (use_weights : Option Bool)
      (location : Option (GeoInfoWithBias F))
      → rerank_chunks floats fresh chunks sort tag_weights use_weights location ≡ some after
      → SameResults after chunks
  unfolding rerank_chunks
  rerank_chunks-SameResults chunks after sort tag_weights use_weights location h =
      let (weighted, a, f) = chain_some (apply_weights floats fresh use_weights chunks) _ after h in
      let (biased, b, g) = chain_some (bias_by_location floats fresh location weighted) _ after f in
      let tagged = apply_tag_weights floats fresh tag_weights biased in
      Permᴰ.trans (sort_by_field-same sort (sort_by (by_score floats fresh) tagged) after g) (
        Permᴰ.trans (sort_by-same (by_score floats fresh) tagged) (
          same-SameResults tagged chunks (
            apply_tag_weights-payload floats fresh tag_weights biased
            ∙ bias_by_location-payload floats fresh location weighted biased b
            ∙ apply_weights-payload floats fresh use_weights chunks weighted a)))

  -- By a key: `directed` in the direction of the request, which descends where it does not ask for
  -- the other one.
  abbrev pub descending :
      {K : Type 0}
      → (ScoreChunkDto F → K)
      → (K → K → Option Ordering)
      → ScoreChunkDto F
      → ScoreChunkDto F
      → Ordering
  descending key cmp a b = unwrap_or (cmp (key b) (key a)) Ordering.eq

  abbrev pub directed :
      {K : Type 0}
      → Option SortOrder
      → (ScoreChunkDto F → K)
      → (K → K → Option Ordering)
      → ScoreChunkDto F
      → ScoreChunkDto F
      → Ordering
  directed direction key cmp a b =
      if ascending floats fresh direction
      then unwrap_or (cmp (key a) (key b)) Ordering.eq
      else descending key cmp a b

  -- The order that is asked for: by the field, where it is one of the two, and else by the score.
  abbrev pub wanted_order : Option SortByField → ScoreChunkDto F → ScoreChunkDto F → Ordering
  wanted_order none = descending (λ chunk. chunk.score) floats.partial_cmp
  wanted_order (some sort) =
      if str_eq sort.field "time_stamp"
      then directed sort.direction (time_of floats fresh) (cmp_option (λ x y. some (compare x y)))
      else if str_eq sort.field "num_value"
      then directed sort.direction (number_of floats fresh) (cmp_option floats.partial_cmp)
      else descending (λ chunk. chunk.score) floats.partial_cmp

  module _ (dual : DualOption floats.partial_cmp) where
    by_score-dual : Dual (by_score floats fresh)
    by_score-dual x y h = dual y.score x.score h

    by_time-dual : (direction : Option SortOrder) → Dual (by_time floats fresh direction)
    by_time-dual direction x y = elim (Bool-cases (ascending floats fresh direction)) [
      | inl a ↦
          rw (a) (dual_option _ dual_compare (time_of floats fresh x) (time_of floats fresh y))
      | inr a ↦
          rw (a) (dual_option _ dual_compare (time_of floats fresh y) (time_of floats fresh x))
    ]

    by_number-dual : (direction : Option SortOrder) → Dual (by_number floats fresh direction)
    by_number-dual direction x y = elim (Bool-cases (ascending floats fresh direction)) [
      | inl a ↦ rw (a) (dual_option _ dual (number_of floats fresh x) (number_of floats fresh y))
      | inr a ↦ rw (a) (dual_option _ dual (number_of floats fresh y) (number_of floats fresh x))
    ]

    sort_checked-Sorted :
        (cmp : ScoreChunkDto F → ScoreChunkDto F → Ordering) (chunks after : List (ScoreChunkDto F))
        → Dual cmp
        → sort_checked floats fresh cmp chunks ≡ some after
        → Sorted cmp after
    sort_checked-Sorted cmp chunks after d h =
        subst (Sorted cmp) (sort_checked-sorts floats fresh cmp chunks after h)
          (Sorted-sort_by cmp d chunks)

    sort_by_field-Sorted :
        (sort : Option SortByField) (chunks after : List (ScoreChunkDto F))
        → Sorted (by_score floats fresh) chunks
        → sort_by_field floats fresh sort chunks ≡ some after
        → Sorted (wanted_order sort) after
    unfolding sort_by_field
    sort_by_field-Sorted none chunks after s h =
        subst (Sorted (by_score floats fresh)) (some-injective h) s
    sort_by_field-Sorted (some sort) chunks after s h =
        elim (Bool-cases (str_eq sort.field "time_stamp")) [
          | inl a ↦ rw (a) (
              sort_checked-Sorted _ chunks after (by_time-dual sort.direction)
                (rw (sort_by_field, a) at h))
          | inr a ↦ elim (Bool-cases (str_eq sort.field "num_value")) [
            | inl b ↦
                rw (a, b)
                  (sort_checked-Sorted _ chunks after (by_number-dual sort.direction)
                    (rw (sort_by_field, a, b) at h))
            | inr b ↦
                rw (a, b)
                  (subst (Sorted (by_score floats fresh))
                    (some-injective (rw (sort_by_field, a, b) at h)) s)
          ]
        ]

    -- If comparing two floats in both directions never gives "greater" twice and the reranking does
    -- not panic, no result is greater than the next one in the order that is asked for: by the time
    -- stamp or the number, in the direction of the request, or else descending by the final score.
    pub rerank_chunks-Sorted :
        (chunks after : List (ScoreChunkDto F)) (sort : Option SortByField)
        (tag_weights : Option (List (String × F))) (use_weights : Option Bool)
        (location : Option (GeoInfoWithBias F))
        → rerank_chunks floats fresh chunks sort tag_weights use_weights location ≡ some after
        → Sorted (wanted_order sort) after
    unfolding rerank_chunks
    rerank_chunks-Sorted chunks after sort tag_weights use_weights location h =
        let (weighted, a, f) =
          chain_some (apply_weights floats fresh use_weights chunks) _ after h in
        let (biased, b, g) =
          chain_some (bias_by_location floats fresh location weighted) _ after f in
        sort_by_field-Sorted sort _ after
          (Sorted-sort_by (by_score floats fresh) by_score-dual
            (apply_tag_weights floats fresh tag_weights biased))
          g
