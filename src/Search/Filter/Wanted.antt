-- ===== src/Search/Filter/Wanted.antt =====
-- The points that a request asks for, and the conditions that assemble_qdrant_filter of
-- server/src/operators/search_operator.rs converts them to. Whether one clause holds for a point is up to the
-- store; a filter admits a point if all of `must` hold, none of `must_not` and, if there is any
-- `should`, one of these.

use mathlib.Core.Bool.{and_assoc, or_assoc}
use trieve.Prelude.{
  ◌≡◌, refl, sym, ap, ◌∙◌, subst, String, Bool, true, false, not, ◌&&◌, ◌||◌, Option, none, some,
  List, [], ◌∷◌, ◌++◌, any, is_empty,
}
use trieve.Errors.{Result, ok, err, Outcome, returned, panicked, chain}
use trieve.Models.{Uuid, UnifiedId}
use trieve.Search.Condition.{Clause, Condition, clause, all_of, matches, matches_text, Services}
use trieve.Search.Filter.{
  ConditionType, ChunkFilter, Filter, convert_condition, convert_all, convert_section,
}

abbrev pub all : {A : Type 0} → (A → Bool) → List A → Bool
all test [] = true
all test (x ∷ xs) = test x && all test xs

abbrev pub meets : {F P : Type 0} → (Clause F → P → Bool) → P → Condition F → Bool
meets holds p (clause c) = holds c p
meets holds p (all_of cs) = all (λ c. holds c p) cs

abbrev pub one_of : {F P : Type 0} → (Clause F → P → Bool) → P → List (Condition F) → Bool
one_of holds p should = is_empty should || any (meets holds p) should

abbrev pub admits : {F P : Type 0} → (Clause F → P → Bool) → Filter F → P → Bool
admits holds filter p =
    all (meets holds p) filter.must
    && (one_of holds p filter.should && not (any (meets holds p) filter.must_not))

-- A chain that went through: the value of its first call, and the rest on it.
pub chain_ok :
    {A B : Type 0} (o : Outcome A) (f : A → Outcome B) (b : B)
    → chain o f ≡ returned (ok b)
    → (a : A) × (o ≡ returned (ok a)) × (f a ≡ returned (ok b))
chain_ok panicked f b h = cc
chain_ok (returned (err e)) f b h = cc
chain_ok (returned (ok a)) f b h = (a, refl, h)

pub returned-injective : {A : Type 0} {a b : A} → returned (ok a) ≡ returned (ok b) → a ≡ b
returned-injective h = cc

pub all-append :
    {A : Type 0} (test : A → Bool) (xs ys : List A)
    → all test (xs ++ ys) ≡ (all test xs && all test ys)
all-append test [] ys = refl
all-append test (x ∷ xs) ys = rw (all-append test xs ys) (sym (and_assoc (test x) _ _))

pub any-append :
    {A : Type 0} (test : A → Bool) (xs ys : List A)
    → any test (xs ++ ys) ≡ (any test xs || any test ys)
any-append test [] ys = refl
any-append test (x ∷ xs) ys = rw (any-append test xs ys) (sym (or_assoc (test x) _ _))

module _ {F P : Type 0} (services : Services F)
    (get_qdrant_ids : List UnifiedId → Result (List Uuid)) (dataset : Uuid)
    (holds : Clause F → P → Bool) (p : P) where
  -- A point meets a condition of the request.
  abbrev pub meets_request : Option Bool → ConditionType F → Bool
  meets_request prefilter c = elim (convert_condition services get_qdrant_ids dataset prefilter c) [
    | panicked ↦ false
    | returned result ↦ elim result [ err e ↦ false | ok condition ↦ meets holds p condition ]
  ]

  abbrev pub wanted_section : Option (List (ConditionType F)) → List (ConditionType F)
  wanted_section none = []
  wanted_section (some cs) = cs

  abbrev pub meets_filters : Option (ChunkFilter F) → Bool × Bool × Bool
  meets_filters none = (true, true, false)
  meets_filters (some filters) = (
    all (meets_request filters.jsonb_prefilter) (wanted_section filters.must),
    is_empty (wanted_section filters.should)
        || any (meets_request filters.jsonb_prefilter) (wanted_section filters.should),
    any (meets_request filters.jsonb_prefilter) (wanted_section filters.must_not),
  )

  abbrev pub says : String → Bool
  says word = holds (matches_text "content" word) p

  abbrev pub words_of : Option (List String) → List String
  words_of none = []
  words_of (some words) = words

  abbrev pub in_group : Option Uuid → Bool
  in_group none = true
  in_group (some group) = holds (matches "group_ids" (services.uuid_to_string group ∷ [])) p && true

  -- The points that a request asks for.
  abbrev pub wanted :
      Option (ChunkFilter F) → Option (List String) → Option (List String) → Option Uuid → Bool
  wanted filters quote_words negated_words group =
      let (musts, shoulds, must_nots) = meets_filters filters in
      (((holds (matches "dataset_id" (services.uuid_to_string dataset ∷ [])) p && musts)
          && all says (words_of quote_words))
        && in_group group)
      && (shoulds && not (must_nots || any says (words_of negated_words)))

  abbrev pub Converted : Option Bool → List (ConditionType F) → List (Condition F) → Type 0
  Converted prefilter cs conditions =
      (all (meets holds p) conditions ≡ all (meets_request prefilter) cs)
      × (any (meets holds p) conditions ≡ any (meets_request prefilter) cs)
      × (is_empty conditions ≡ is_empty cs)

  Converted-cons :
      (prefilter : Option Bool) (c : ConditionType F) (cs : List (ConditionType F))
      (condition : Condition F) (rest : List (Condition F))
      → convert_condition services get_qdrant_ids dataset prefilter c ≡ returned (ok condition)
      → Converted prefilter cs rest
      → Converted prefilter (c ∷ cs) (condition ∷ rest)
  Converted-cons prefilter c cs condition rest a (x, y, z) =
      let same : meets holds p condition ≡ meets_request prefilter c = rw (meets_request, a) refl in
      (
        ap (λ b. b && all (meets holds p) rest) same ∙ ap (λ b. meets_request prefilter c && b) x,
        ap (λ b. b || any (meets holds p) rest) same ∙ ap (λ b. meets_request prefilter c || b) y,
        refl,
      )

  convert_all-Converted :
      (prefilter : Option Bool) (cs : List (ConditionType F)) (conditions : List (Condition F))
      → convert_all services get_qdrant_ids dataset prefilter cs ≡ returned (ok conditions)
      → Converted prefilter cs conditions
  unfolding convert_all
  convert_all-Converted prefilter [] conditions h =
      subst (Converted prefilter []) (returned-injective h) (refl, refl, refl)
  convert_all-Converted prefilter (c ∷ cs) conditions h =
      let (condition, a, f) =
        chain_ok (convert_condition services get_qdrant_ids dataset prefilter c) _ conditions h in
      let (rest, b, g) =
        chain_ok (convert_all services get_qdrant_ids dataset prefilter cs) _ conditions f in
      subst (Converted prefilter (c ∷ cs)) (returned-injective g)
        (Converted-cons prefilter c cs condition rest a (convert_all-Converted prefilter cs rest b))

  pub convert_section-Converted :
      (prefilter : Option Bool) (cs : Option (List (ConditionType F)))
      (conditions : List (Condition F))
      → convert_section services get_qdrant_ids dataset prefilter cs ≡ returned (ok conditions)
      → Converted prefilter (wanted_section cs) conditions
  convert_section-Converted prefilter none conditions h =
      subst (Converted prefilter []) (returned-injective h) (refl, refl, refl)
  convert_section-Converted prefilter (some cs) conditions h =
      convert_all-Converted prefilter cs conditions h
