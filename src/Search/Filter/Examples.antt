-- ===== src/Search/Filter/Examples.antt =====
-- Filters of assemble_qdrant_filter of server/src/operators/search_operator.rs.
use trieve.Prelude.{
  ◌≡◌, refl, String, str_eq, Bool, true, false, Option, none, some, List, [], ◌∷◌, map, pos, any,
  ◌&&◌,
}
use trieve.Errors.{Result, ok, returned, panicked}
use trieve.Models.{Uuid, UnifiedId}
use trieve.Search.Condition.{
  MatchCondition, match_text, match_integer, FieldCondition, Clause, matches, matches_integers,
  matches_text, in_range, in_bounding_box, in_radius, in_polygon, has_id, clause, all_of, Services,
  convert_to_qdrant_condition, plain_condition, geo_or_match_condition, match_condition,
  any_condition, all_to_i64, convert_group_tracking_ids_to_group_ids,
}
use trieve.Search.Condition.Panics.{returns, convert_to_qdrant_condition-returns}
use trieve.Search.Filter.{
  field_condition, id_condition, ChunkFilter, Filter, query_filter, assemble_qdrant_filter,
  request_filter, convert_all, convert_condition, get_qdrant_ids_from_condition,
}
use trieve.Search.Filter.Wanted.{admits, wanted}
use trieve.Search.Filter.Admits.{query_filter-admits}

abbrev services : Services String
services = record {
  get_group_ids_from_tracking_ids = λ texts dataset. ok ((1, none) ∷ []);
  metadata_points = λ c dataset. returned (ok ("100" ∷ []));
  group_metadata_points = λ c dataset. returned (ok []);
  group_tag_set_points = λ c dataset. returned (ok []);
  uuid_to_string = λ id. "7";
  integer_to_string = λ n. "5";
  float_to_string = λ x. x;
  parse_integer = λ s. none;
  truncate = λ x. pos 0;
  to_float = λ n. "5.0";
  narrow = λ x. x;
  parse_time = λ s. none;
}

abbrev points : List UnifiedId → Result (List Uuid)
points ids = ok (map (λ _. 9) ids)

abbrev on_field : String → Option (List (MatchCondition String)) → FieldCondition String
on_field field values = record {
  field = field;
  match_any = values;
  match_all = none;
  range = none;
  date_range = none;
  geo_bounding_box = none;
  geo_radius = none;
  geo_polygon = none;
}

abbrev filters : ChunkFilter String
filters = record {
  should = none;
  must = some (
      field_condition (on_field "metadata.color" (some (match_text "red" ∷ [])))
      ∷ field_condition (on_field "group_tracking_ids" (some (match_text "docs" ∷ [])))
      ∷ []);
  must_not = some (id_condition (record { ids = some (3 ∷ []); tracking_ids = none }) ∷ []);
  jsonb_prefilter = none;
}

abbrev filter : Filter String
filter = record {
  should = [];
  must =
      clause (matches "dataset_id" ("7" ∷ []))
      ∷ all_of (has_id ("100" ∷ []) ∷ [])
      ∷ clause (matches "group_ids" ("7" ∷ []))
      ∷ clause (matches_text "content" "bread")
      ∷ [];
  must_not = clause (has_id ("7" ∷ [])) ∷ clause (matches_text "content" "salt") ∷ [];
}

assembled :
    query_filter services points 7 (some filters) (some ("bread" ∷ [])) (some ("salt" ∷ [])) none
    ≡ returned (ok filter)
unfolding query_filter assemble_qdrant_filter request_filter convert_all convert_condition
    get_qdrant_ids_from_condition convert_to_qdrant_condition plain_condition geo_or_match_condition
    match_condition any_condition convert_group_tracking_ids_to_group_ids
assembled = refl

-- A store whose points are told by the clauses that they meet on texts.
abbrev holds : Clause String → List String → Bool
holds (matches field values) p = any (λ t. str_eq t field) p
holds (matches_integers field values) p = false
holds (matches_text field word) p = any (λ t. str_eq t word) p
holds (in_range field r) p = false
holds (in_bounding_box field box) p = false
holds (in_radius field radius) p = false
holds (in_polygon field exterior interiors) p = false
holds (has_id ids) p = any (λ t. str_eq t "100") p && any (λ i. str_eq i "100") ids

abbrev point : List String
point = "dataset_id" ∷ "group_ids" ∷ "bread" ∷ "100" ∷ []

admitted_test : admits holds filter point ≡ true
admitted_test = refl

query_filter-admits_example :
    admits holds filter point
    ≡ wanted services points 7 holds point
        (some filters)
        (some ("bread" ∷ []))
        (some ("salt" ∷ []))
        none
query_filter-admits_example =
    query_filter-admits services points 7 holds point (some filters) (some ("bread" ∷ []))
      (some ("salt" ∷ [])) none filter assembled

-- A text after a number stops the request.
mixed_test :
    convert_to_qdrant_condition services
      (on_field "size" (some (match_integer (pos 5) ∷ match_text "large" ∷ [])))
      none
      7
    ≡ panicked
unfolding convert_to_qdrant_condition plain_condition geo_or_match_condition match_condition
    any_condition all_to_i64
mixed_test = refl

convert_to_qdrant_condition-returns_example :
    returns (
      convert_to_qdrant_condition services
        (on_field "size" (some (match_integer (pos 5) ∷ match_integer (pos 6) ∷ [])))
        none
        7)
    ≡ true
convert_to_qdrant_condition-returns_example =
    convert_to_qdrant_condition-returns services
      (on_field "size" (some (match_integer (pos 5) ∷ match_integer (pos 6) ∷ []))) none 7
      (refl, refl) (refl, refl, refl)
