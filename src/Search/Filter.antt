-- ===== src/Search/Filter.antt =====
-- The filter of a search: assemble_qdrant_filter of server/src/operators/search_operator.rs, with the
-- group that into_qdrant_query adds to it.
pub mod Wanted
pub mod Admits
pub mod Examples
use trieve.Prelude.{ℕ, String, Bool, Option, none, some, List, [], ◌∷◌, ◌++◌, map}
use trieve.Errors.{
  ServiceError, bad_request, Result, ok, err, ◌>>=◌, Outcome, returned, panicked, chain,
}
use trieve.Models.{Uuid, UnifiedId, trieve_uuid, tracking_id}
use trieve.Search.Condition.{
  FieldCondition, Condition, clause, matches, matches_text, has_id, Services,
  convert_to_qdrant_condition, convert_group_tracking_ids_to_group_ids,
}

pub record HasIdCondition : Type 0 where
  pub ids : Option (List Uuid)
  pub tracking_ids : Option (List String)

pub data ConditionType (F : Type 0) : Type 0 where
  field_condition : FieldCondition F → ConditionType F
  id_condition : HasIdCondition → ConditionType F

pub record ChunkFilter (F : Type 0) : Type 0 where
  pub should : Option (List (ConditionType F))
  pub must : Option (List (ConditionType F))
  pub must_not : Option (List (ConditionType F))
  pub jsonb_prefilter : Option Bool

-- `qdrant_client::qdrant::Filter`.
pub record Filter (F : Type 0) : Type 0 where
  pub should : List (Condition F)
  pub must : List (Condition F)
  pub must_not : List (Condition F)

module _ {F : Type 0} (services : Services F)
    -- the point ids of the chunks with these ids
    (get_qdrant_ids_from_chunk_ids : List UnifiedId → Result (List Uuid)) (dataset : Uuid) where
  unfoldable pub get_qdrant_ids_from_condition : HasIdCondition → Result (List String)
  get_qdrant_ids_from_condition c = elim c.ids [
    | some ids ↦
        (get_qdrant_ids_from_chunk_ids (map (λ id. trieve_uuid id) ids) >>= λ points.
        ok (map services.uuid_to_string points))
    | none ↦ elim c.tracking_ids [
      | some ids ↦
          (get_qdrant_ids_from_chunk_ids (map (λ id. tracking_id id) ids) >>= λ points.
          ok (map services.uuid_to_string points))
      | none ↦ err (bad_request "ids or tracking_ids must be provided")
    ]
  ]

  -- The body of the three loops.
  unfoldable pub convert_condition : Option Bool → ConditionType F → Outcome (Condition F)
  convert_condition jsonb_prefilter (field_condition c) =
      chain (returned (convert_group_tracking_ids_to_group_ids services c dataset))
        (λ condition. convert_to_qdrant_condition services condition jsonb_prefilter dataset)
  convert_condition jsonb_prefilter (id_condition c) =
      chain (returned (get_qdrant_ids_from_condition c))
        (λ ids. returned (ok (clause (has_id ids))))

  unfoldable pub convert_all : Option Bool → List (ConditionType F) → Outcome (List (Condition F))
  convert_all jsonb_prefilter [] = returned (ok [])
  convert_all jsonb_prefilter (c ∷ cs) = chain (convert_condition jsonb_prefilter c) (λ condition.
      chain (convert_all jsonb_prefilter cs) (λ conditions. returned (ok (condition ∷ conditions))))

  abbrev pub convert_section :
      Option Bool → Option (List (ConditionType F)) → Outcome (List (Condition F))
  convert_section jsonb_prefilter none = returned (ok [])
  convert_section jsonb_prefilter (some cs) = convert_all jsonb_prefilter cs

  abbrev pub dataset_condition : Condition F
  dataset_condition = clause (matches "dataset_id" (services.uuid_to_string dataset ∷ []))

  -- The filter with the dataset and the conditions of the request.
  unfoldable pub request_filter : Option (ChunkFilter F) → Outcome (Filter F)
  request_filter none =
      returned (ok (record { should = []; must = dataset_condition ∷ []; must_not = [] }))
  request_filter (some filters) =
      chain (convert_section filters.jsonb_prefilter filters.should) (λ should.
        chain (convert_section filters.jsonb_prefilter filters.must) (λ must.
          chain (convert_section filters.jsonb_prefilter filters.must_not) (λ must_not. returned (
            ok
              (record { should = should; must = dataset_condition ∷ must; must_not = must_not })))))

  -- `for word in words { .. push(Condition::matches_text("content", word)) }`
  abbrev pub word_conditions : Option (List String) → List (Condition F)
  word_conditions none = []
  word_conditions (some words) = map (λ word. clause (matches_text "content" word)) words

  abbrev pub add_words : Option (List String) → Option (List String) → Filter F → Filter F
  add_words quote_words negated_words filter = record {
    should = filter.should;
    must = filter.must ++ word_conditions quote_words;
    must_not = filter.must_not ++ word_conditions negated_words;
  }

  unfoldable pub assemble_qdrant_filter :
      Option (ChunkFilter F) → Option (List String) → Option (List String) → Outcome (Filter F)
  assemble_qdrant_filter filters quote_words negated_words =
      chain (request_filter filters)
        (λ filter. returned (ok (add_words quote_words negated_words filter)))

  abbrev pub add_group : Option Uuid → Filter F → Filter F
  add_group none filter = filter
  add_group (some group) filter = record filter {
    must = filter.must ++ (clause (matches "group_ids" (services.uuid_to_string group ∷ [])) ∷ []);
  }

  -- The filter of `into_qdrant_query`.
  unfoldable pub query_filter :
      Option (ChunkFilter F)
      → Option (List String)
      → Option (List String)
      → Option Uuid
      → Outcome (Filter F)
  query_filter filters quote_words negated_words group =
      chain (assemble_qdrant_filter filters quote_words negated_words)
        (λ filter. returned (ok (add_group group filter)))
