-- ===== src/Search/Filter/Admits.antt =====
-- Which points of the vector store pass a filter that query_filter makes, by assemble_qdrant_filter
-- of server/src/operators/search_operator.rs.
use trieve.Prelude.{
  ◌≡◌, refl, ap, ◌∙◌, subst, String, Bool, true, false, not, ◌&&◌, ◌||◌, Option, none, some, List,
  [], ◌∷◌, ◌++◌, map, any, is_empty,
}
use trieve.Errors.{Result, ok, returned}
use trieve.Models.{Uuid, UnifiedId}
use trieve.Search.Condition.{Clause, clause, matches, matches_text, Services}
use trieve.Search.Filter.{
  ChunkFilter, Filter, convert_section, request_filter, word_conditions, add_words,
  assemble_qdrant_filter, add_group, query_filter,
}
use trieve.Search.Filter.Wanted.{
  all, meets, one_of, admits, chain_ok, returned-injective, all-append, any-append, wanted_section,
  meets_filters, says, words_of, in_group, wanted, convert_section-Converted,
}

module _ {F P : Type 0} (services : Services F)
    (get_qdrant_ids : List UnifiedId → Result (List Uuid)) (dataset : Uuid)
    (holds : Clause F → P → Bool) (p : P) where
  all_words :
      (words : List String)
      → all (meets holds p) (map (λ w. clause (matches_text "content" w)) words)
        ≡ all (says services get_qdrant_ids dataset holds p) words
  all_words [] = refl
  all_words (w ∷ ws) =
      ap (λ b. (says services get_qdrant_ids dataset holds p) w && b) (all_words ws)

  any_words :
      (words : List String)
      → any (meets holds p) (map (λ w. clause (matches_text "content" w)) words)
        ≡ any (says services get_qdrant_ids dataset holds p) words
  any_words [] = refl
  any_words (w ∷ ws) =
      ap (λ b. (says services get_qdrant_ids dataset holds p) w || b) (any_words ws)

  all_quoted :
      (words : Option (List String))
      → all (meets holds p) (word_conditions services get_qdrant_ids dataset words)
        ≡ all
            (says services get_qdrant_ids dataset holds p)
            ((words_of services get_qdrant_ids dataset holds p) words)
  all_quoted none = refl
  all_quoted (some words) = all_words words

  any_negated :
      (words : Option (List String))
      → any (meets holds p) (word_conditions services get_qdrant_ids dataset words)
        ≡ any
            (says services get_qdrant_ids dataset holds p)
            ((words_of services get_qdrant_ids dataset holds p) words)
  any_negated none = refl
  any_negated (some words) = any_words words

  abbrev in_dataset : Bool
  in_dataset = holds (matches "dataset_id" (services.uuid_to_string dataset ∷ [])) p

  -- The three parts of a filter, on the point.
  abbrev Parts : Filter F → Bool × Bool × Bool → Type 0
  Parts filter (musts, shoulds, must_nots) =
      (all (meets holds p) filter.must ≡ musts)
      × (one_of holds p filter.should ≡ shoulds)
      × (any (meets holds p) filter.must_not ≡ must_nots)

  request_filter-Parts :
      (filters : Option (ChunkFilter F)) (filter : Filter F)
      → request_filter services get_qdrant_ids dataset filters ≡ returned (ok filter)
      → Parts filter (
        in_dataset && ((meets_filters services get_qdrant_ids dataset holds p) filters).0,
        ((meets_filters services get_qdrant_ids dataset holds p) filters).1,
        ((meets_filters services get_qdrant_ids dataset holds p) filters).2,
      )
  unfolding request_filter
  request_filter-Parts none filter h =
      subst (λ f. Parts f (in_dataset && true, true, false)) (returned-injective h)
        (refl, refl, refl)
  request_filter-Parts (some filters) filter h =
      let (should, a, f) =
        chain_ok
          (convert_section services get_qdrant_ids dataset filters.jsonb_prefilter filters.should) _
          filter h in
      let (must, b, g) =
        chain_ok
          (convert_section services get_qdrant_ids dataset filters.jsonb_prefilter filters.must) _
          filter f in
      let (must_not, c, k) =
        chain_ok
          (convert_section services get_qdrant_ids dataset filters.jsonb_prefilter filters.must_not)
          _ filter g in
      let (x, y, z) =
        (convert_section-Converted services get_qdrant_ids dataset holds p) filters.jsonb_prefilter
          filters.should should a in
      let (x1, y1, z1) =
        (convert_section-Converted services get_qdrant_ids dataset holds p) filters.jsonb_prefilter
          filters.must must b in
      let (x2, y2, z2) =
        (convert_section-Converted services get_qdrant_ids dataset holds p) filters.jsonb_prefilter
          filters.must_not must_not c in
      subst
        (λ fl. Parts fl (
          in_dataset && ((meets_filters services get_qdrant_ids dataset holds p) (some filters)).0,
          ((meets_filters services get_qdrant_ids dataset holds p) (some filters)).1,
          ((meets_filters services get_qdrant_ids dataset holds p) (some filters)).2,
        ))
        (returned-injective k)
        (
          ap (λ v. in_dataset && v) x1,
          ap (λ v. v || any (meets holds p) should) z
              ∙ ap
                  (λ v.
                    is_empty
                      ((wanted_section services get_qdrant_ids dataset holds p) filters.should)
                    || v)
                  y,
          y2,
        )

  combine : (a b s t n m : Bool) → a ≡ b → s ≡ t → n ≡ m → (a && (s && not n)) ≡ (b && (t && not m))
  combine a b s t n m x y z = rw (x, y, z) refl

  and_true : (a : Bool) → a ≡ (a && true)
  and_true true = refl
  and_true false = refl

  must_with_words :
      (words : Option (List String)) (filter : Filter F) (musts : Bool)
      → all (meets holds p) filter.must ≡ musts
      → all (meets holds p) (filter.must ++ word_conditions services get_qdrant_ids dataset words)
        ≡ (musts
            && all
                (says services get_qdrant_ids dataset holds p)
                ((words_of services get_qdrant_ids dataset holds p) words))
  must_with_words words filter musts x =
      all-append (meets holds p) filter.must (word_conditions services get_qdrant_ids dataset words)
      ∙ ap (λ b. b && all (meets holds p) (word_conditions services get_qdrant_ids dataset words)) x
      ∙ ap (λ b. musts && b) (all_quoted words)

  must_not_with_words :
      (words : Option (List String)) (filter : Filter F) (must_nots : Bool)
      → any (meets holds p) filter.must_not ≡ must_nots
      → any
          (meets holds p)
          (filter.must_not ++ word_conditions services get_qdrant_ids dataset words)
        ≡ (must_nots
            || any
                (says services get_qdrant_ids dataset holds p)
                ((words_of services get_qdrant_ids dataset holds p) words))
  must_not_with_words words filter must_nots x =
      any-append (meets holds p) filter.must_not
        (word_conditions services get_qdrant_ids dataset words)
      ∙ ap (λ b. b || any (meets holds p) (word_conditions services get_qdrant_ids dataset words)) x
      ∙ ap (λ b. must_nots || b) (any_negated words)

  admits_with_words :
      (quote_words negated_words : Option (List String)) (group : Option Uuid) (filter : Filter F)
      (musts shoulds must_nots : Bool)
      → Parts filter (musts, shoulds, must_nots)
      → admits holds
          (add_group services get_qdrant_ids dataset group
            (add_words services get_qdrant_ids dataset quote_words negated_words filter))
          p
        ≡ (((musts
                && all
                    (says services get_qdrant_ids dataset holds p)
                    ((words_of services get_qdrant_ids dataset holds p) quote_words))
              && (in_group services get_qdrant_ids dataset holds p) group)
            && (shoulds
                && not (
                    must_nots
                    || any
                        (says services get_qdrant_ids dataset holds p)
                        ((words_of services get_qdrant_ids dataset holds p) negated_words))))
  admits_with_words quote_words negated_words none filter musts shoulds must_nots (x, y, z) =
      combine _ _ _ _ _ _ (must_with_words quote_words filter musts x ∙ and_true _) y
        (must_not_with_words negated_words filter must_nots z)
  admits_with_words quote_words negated_words (some group) filter musts shoulds must_nots
        (x, y, z) =
      combine _ _ _ _ _ _
        (all-append (meets holds p)
            (filter.must ++ word_conditions services get_qdrant_ids dataset quote_words) _
          ∙ ap (λ b. b && (in_group services get_qdrant_ids dataset holds p) (some group))
              (must_with_words quote_words filter musts x))
        y (must_not_with_words negated_words filter must_nots z)

  -- A filter that is made for a request admits exactly the points that the request asks for: those
  -- of the dataset, and of the group where one is given, that meet every `must`, no `must_not` and,
  -- where there is one, some `should` condition as it is converted, with every quoted word in their
  -- content and no negated one.
  pub query_filter-admits :
      (filters : Option (ChunkFilter F)) (quote_words negated_words : Option (List String))
      (group : Option Uuid) (filter : Filter F)
      → query_filter services get_qdrant_ids dataset filters quote_words negated_words group
        ≡ returned (ok filter)
      → admits holds filter p
        ≡ (wanted services get_qdrant_ids dataset holds p) filters quote_words negated_words group
  unfolding query_filter assemble_qdrant_filter
  query_filter-admits filters quote_words negated_words group filter h =
      let (assembled, a, f) =
        chain_ok
          (assemble_qdrant_filter services get_qdrant_ids dataset filters quote_words negated_words)
          _ filter h in
      let (requested, b, g) =
        chain_ok (request_filter services get_qdrant_ids dataset filters) _ assembled a in
      let e : add_group services get_qdrant_ids dataset group
            (add_words services get_qdrant_ids dataset quote_words negated_words requested)
          ≡ filter =
        ap (add_group services get_qdrant_ids dataset group) (returned-injective g)
        ∙ returned-injective f in
      subst
        (λ fl.
          admits holds fl p
          ≡ (wanted services get_qdrant_ids dataset holds p) filters quote_words negated_words
              group)
        e
        (admits_with_words quote_words negated_words group requested _ _ _
          (request_filter-Parts filters requested b))
