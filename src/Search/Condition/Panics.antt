-- ===== src/Search/Condition/Panics.antt =====
-- When convert_to_qdrant_condition of server/src/data/models.rs returns: `to_i64` unwraps the number
-- that it reads in a text.
use text.Mathlib.Text.{starts_with}
use trieve.Prelude.{
  ◌≡◌, inl, inr, refl, String, str_eq, Bool, true, false, Option, none, some, List, [], ◌∷◌, ◌&&◌,
  ◌||◌, is_some, unwrap_or, ℤ, Bool-cases, Option-cases,
}
use trieve.Errors.{ok, err, Outcome, returned, panicked}
use trieve.Models.{Uuid}
use trieve.Search.Condition.{
  MatchCondition, match_text, match_integer, match_float, FieldCondition, Condition, Services,
  all_to_i64, integers, any_condition, all_condition, match_condition, geo_or_match_condition,
  plain_condition, convert_to_qdrant_condition, with_points,
}

abbrev pub is_number : {F : Type 0} → MatchCondition F → Bool
is_number (match_text s) = false
is_number (match_integer n) = true
is_number (match_float x) = true

abbrev pub all_numbers : {F : Type 0} → List (MatchCondition F) → Bool
all_numbers [] = true
all_numbers (m ∷ ms) = is_number m && all_numbers ms

-- The values of a match begin with a text, or are numbers all.
abbrev pub uniform : {F : Type 0} → List (MatchCondition F) → Bool
uniform [] = true
uniform (match_text s ∷ ms) = true
uniform ms = all_numbers ms

abbrev pub uniform_values : {F : Type 0} → Option (List (MatchCondition F)) → Bool
uniform_values none = true
uniform_values (some ms) = uniform ms

abbrev pub returns : {A : Type 0} → Outcome A → Bool
returns (returned r) = true
returns panicked = false

module _ {F : Type 0} (services : Services F) where
  some_cons :
      (o : Option (List ℤ)) (n : ℤ)
      → is_some o ≡ true
      → is_some (elim o [ none ↦ none | some ns ↦ some (n ∷ ns) ]) ≡ true
  some_cons none n h = h
  some_cons (some ns) n h = refl

  all_to_i64_numbers :
      (ms : List (MatchCondition F))
      → all_numbers ms ≡ true
      → is_some (all_to_i64 services ms) ≡ true
  unfolding all_to_i64
  all_to_i64_numbers [] h = refl
  all_to_i64_numbers (match_text s ∷ ms) h = cc
  all_to_i64_numbers (match_integer n ∷ ms) h =
      some_cons (all_to_i64 services ms) n (all_to_i64_numbers ms h)
  all_to_i64_numbers (match_float x ∷ ms) h =
      some_cons (all_to_i64 services ms) (services.truncate x) (all_to_i64_numbers ms h)

  returns-integers :
      (condition : List ℤ → Condition F) (o : Option (List ℤ))
      → is_some o ≡ true
      → returns (integers services condition o) ≡ true
  returns-integers condition none h = h
  returns-integers condition (some ns) h = refl

  returns-any_condition :
      (field : String) (ms : List (MatchCondition F))
      → uniform ms ≡ true
      → returns (any_condition services field ms) ≡ true
  unfolding any_condition
  returns-any_condition field [] h = refl
  returns-any_condition field (match_text s ∷ ms) h = refl
  returns-any_condition field (match_integer n ∷ ms) h =
      returns-integers _ _ (all_to_i64_numbers (match_integer n ∷ ms) h)
  returns-any_condition field (match_float x ∷ ms) h =
      returns-integers _ _ (all_to_i64_numbers (match_float x ∷ ms) h)

  returns-all_condition :
      (field : String) (ms : List (MatchCondition F))
      → uniform ms ≡ true
      → returns (all_condition services field ms) ≡ true
  unfolding all_condition
  returns-all_condition field [] h = refl
  returns-all_condition field (match_text s ∷ ms) h = refl
  returns-all_condition field (match_integer n ∷ ms) h =
      returns-integers _ _ (all_to_i64_numbers (match_integer n ∷ ms) h)
  returns-all_condition field (match_float x ∷ ms) h =
      returns-integers _ _ (all_to_i64_numbers (match_float x ∷ ms) h)

  returns-with_points :
      (points : Outcome (List String))
      → returns points ≡ true
      → returns (with_points services points) ≡ true
  returns-with_points panicked h = h
  returns-with_points (returned (ok ids)) h = refl
  returns-with_points (returned (err e)) h = refl

  -- The queries for points by metadata and by tags return for a condition.
  abbrev pub PointsReturn : FieldCondition F → Uuid → Type 0
  PointsReturn c dataset =
      (returns (services.metadata_points c dataset) ≡ true)
      × (returns (services.group_metadata_points c dataset) ≡ true)
      × (returns (services.group_tag_set_points c dataset) ≡ true)

  -- The values of both matches of a condition.
  abbrev pub Uniform : FieldCondition F → Type 0
  Uniform c = (uniform_values c.match_any ≡ true) × (uniform_values c.match_all ≡ true)

  returns-match_condition :
      (c : FieldCondition F) → Uniform c → returns (match_condition services c) ≡ true
  unfolding match_condition
  returns-match_condition c (h, k) = elim (Option-cases c.match_any) [
    | inr (ms, a) ↦ rw (match_condition, a) (returns-any_condition c.field ms (rw (a) at h))
    | inl a ↦ elim (Option-cases c.match_all) [
      | inr (ms, b) ↦ rw (match_condition, a, b) (returns-all_condition c.field ms (rw (b) at k))
      | inl b ↦ rw (match_condition, a, b) refl
    ]
  ]

  returns-geo :
      (c : FieldCondition F) → Uniform c → returns (geo_or_match_condition services c) ≡ true
  unfolding geo_or_match_condition
  returns-geo c u = elim (Option-cases c.geo_bounding_box) [
    | inr (_, a) ↦ rw (geo_or_match_condition, a) refl
    | inl a ↦ elim (Option-cases c.geo_radius) [
      | inr (_, b) ↦ rw (geo_or_match_condition, a, b) refl
      | inl b ↦ elim (Option-cases c.geo_polygon) [
        | inr (_, d) ↦ rw (geo_or_match_condition, a, b, d) refl
        | inl d ↦ rw (geo_or_match_condition, a, b, d) (returns-match_condition c u)
      ]
    ]
  ]

  returns-plain : (c : FieldCondition F) → Uniform c → returns (plain_condition services c) ≡ true
  unfolding plain_condition
  returns-plain c u = elim (Option-cases c.date_range) [
    | inr (_, a) ↦ rw (plain_condition, a) refl
    | inl a ↦ elim (Option-cases c.range) [
      | inr (_, b) ↦ rw (plain_condition, a, b) refl
      | inl b ↦ rw (plain_condition, a, b) (returns-geo c u)
    ]
  ]

  -- The conversion of a condition returns, with a condition or with an error, if the values of its
  -- matches begin with a text or are all numbers, and if the queries for points that it makes return.
  pub convert_to_qdrant_condition-returns :
      (c : FieldCondition F) (prefilter : Option Bool) (dataset : Uuid)
      → Uniform c
      → PointsReturn c dataset
      → returns (convert_to_qdrant_condition services c prefilter dataset) ≡ true
  unfolding convert_to_qdrant_condition
  convert_to_qdrant_condition-returns c prefilter dataset u (pm, pg, pt) =
      elim (Bool-cases ((is_some c.match_all || is_some c.match_any) && is_some c.range)) [
        | inl a ↦ rw (convert_to_qdrant_condition, a) refl
        | inr a ↦ elim (Bool-cases (unwrap_or prefilter true && starts_with c.field "metadata.")) [
          | inl b ↦
              rw (convert_to_qdrant_condition, a, b)
                (returns-with_points (services.metadata_points c dataset) pm)
          | inr b ↦ elim (Bool-cases (starts_with c.field "group_metadata.")) [
            | inl d ↦
                rw (convert_to_qdrant_condition, a, b, d)
                  (returns-with_points (services.group_metadata_points c dataset) pg)
            | inr d ↦ elim (Bool-cases (str_eq c.field "group_tag_set")) [
              | inl e ↦
                  rw (convert_to_qdrant_condition, a, b, d, e)
                    (returns-with_points (services.group_tag_set_points c dataset) pt)
              | inr e ↦ rw (convert_to_qdrant_condition, a, b, d, e) (returns-plain c u)
            ]
          ]
        ]
      ]
