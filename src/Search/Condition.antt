-- ===== src/Search/Condition.antt =====
-- The conditions of a search: FieldCondition and its conversion in server/src/data/models.rs, and
-- convert_group_tracking_ids_to_group_ids of server/src/operators/search_operator.rs.
pub mod Panics
use text.Mathlib.Text.{starts_with}
use trieve.Prelude.{
  String, str_eq, Bool, true, false, Option, none, some, List, [], ◌∷◌, map, ◌&&◌, ◌||◌, is_some,
  unwrap_or, if◌then◌else◌, ℤ,
}
use trieve.Errors.{
  ServiceError, bad_request, Result, ok, err, ◌>>=◌, ok_or, Outcome, returned, panicked, chain,
}
use trieve.Models.{Uuid}

module _ (F : Type 0) where
  pub data MatchCondition : Type 0 where
    match_text : String → MatchCondition
    match_integer : ℤ → MatchCondition
    match_float : F → MatchCondition

  pub data RangeCondition : Type 0 where
    float_bound : F → RangeCondition
    int_bound : ℤ → RangeCondition

  -- `Range`, `DateRange` and the vector store's `Range`, by the type of their bounds.
  pub record Range (B : Type 0) : Type 0 where
    pub gte : Option B
    pub lte : Option B
    pub gt : Option B
    pub lt : Option B

  -- `GeoInfo` and the vector store's `GeoPoint`: the numbers as floats.
  pub record GeoInfo : Type 0 where
    pub lat : F
    pub lon : F

  pub record LocationBoundingBox : Type 0 where
    pub top_left : GeoInfo
    pub bottom_right : GeoInfo

  pub record LocationRadius : Type 0 where
    pub center : GeoInfo
    pub radius : F

  pub record LocationPolygon : Type 0 where
    pub exterior : List GeoInfo
    pub interior : Option (List (List GeoInfo))

  pub record FieldCondition : Type 0 where
    pub field : String
    pub match_any : Option (List MatchCondition)
    pub match_all : Option (List MatchCondition)
    pub range : Option (Range RangeCondition)
    pub date_range : Option (Range String)
    pub geo_bounding_box : Option LocationBoundingBox
    pub geo_radius : Option LocationRadius
    pub geo_polygon : Option LocationPolygon

  -- A condition of the vector store on one field, or on the id of the point. A match on several
  -- values holds where one of them does.
  pub data Clause : Type 0 where
    matches : String → List String → Clause
    matches_integers : String → List ℤ → Clause
    matches_text : String → String → Clause
    in_range : String → Range F → Clause
    in_bounding_box : String → LocationBoundingBox → Clause
    in_radius : String → LocationRadius → Clause
    -- the ring outside, and those inside
    in_polygon : String → List GeoInfo → List (List GeoInfo) → Clause
    has_id : List String → Clause

  -- A clause, or a filter of clauses that all must hold.
  pub data Condition : Type 0 where
    clause : Clause → Condition
    all_of : List Clause → Condition

  -- The database, the conversions of numbers and texts.
  pub record Services : Type 0 where
    pub get_group_ids_from_tracking_ids : List String → Uuid → Result (List (Uuid × Option String))
    -- the point ids of the chunks whose metadata, whose groups' metadata or whose groups' tags match;
    -- these queries panic without a connection
    pub metadata_points : FieldCondition → Uuid → Outcome (List String)
    pub group_metadata_points : FieldCondition → Uuid → Outcome (List String)
    pub group_tag_set_points : FieldCondition → Uuid → Outcome (List String)
    pub uuid_to_string : Uuid → String
    pub integer_to_string : ℤ → String
    pub float_to_string : F → String
    -- `text.parse::<i64>()`
    pub parse_integer : String → Option ℤ
    -- `as i64` and `as f64`
    pub truncate : F → ℤ
    pub to_float : ℤ → F
    -- `as f32`, of the radius
    pub narrow : F → F
    -- the seconds of a time stamp in local time
    pub parse_time : String → Option F

module _ {F : Type 0} (services : Services F) where
  abbrev pub to_string : MatchCondition F → String
  to_string (match_text s) = s
  to_string (match_integer n) = services.integer_to_string n
  to_string (match_float x) = services.float_to_string x

  -- A text that is no number panics.
  abbrev pub to_i64 : MatchCondition F → Option ℤ
  to_i64 (match_text s) = services.parse_integer s
  to_i64 (match_integer n) = some n
  to_i64 (match_float x) = some (services.truncate x)

  unfoldable pub all_to_i64 : List (MatchCondition F) → Option (List ℤ)
  all_to_i64 [] = some []
  all_to_i64 (m ∷ ms) = elim (to_i64 m) [
    | none ↦ none
    | some n ↦ elim (all_to_i64 ms) [ none ↦ none | some ns ↦ some (n ∷ ns) ]
  ]

  abbrev pub convert_to_date_time : Option String → Result (Option F)
  convert_to_date_time none = ok none
  convert_to_date_time (some s) =
      ok_or (services.parse_time s) (bad_request "Invalid timestamp format") >>= λ time.
      ok (some time)

  unfoldable pub get_date_range : Range F String → Result (Range F F)
  get_date_range r = do
    gt ← convert_to_date_time r.gt
    gte ← convert_to_date_time r.gte
    lt ← convert_to_date_time r.lt
    lte ← convert_to_date_time r.lte
    ok (record { gte = gte; lte = lte; gt = gt; lt = lt })

  abbrev pub convert_range : Option (RangeCondition F) → Option F
  convert_range none = none
  convert_range (some (float_bound x)) = some x
  convert_range (some (int_bound n)) = some (services.to_float n)

  unfoldable pub get_range : Range F (RangeCondition F) → Range F F
  get_range r = record {
    gte = convert_range r.gte;
    lte = convert_range r.lte;
    gt = convert_range r.gt;
    lt = convert_range r.lt;
  }

  abbrev pub with_points : Outcome (List String) → Outcome (Condition F)
  with_points points = chain points (λ ids. returned (ok (all_of (has_id ids ∷ []))))

  abbrev pub integers : (List ℤ → Condition F) → Option (List ℤ) → Outcome (Condition F)
  integers condition none = panicked
  integers condition (some ns) = returned (ok (condition ns))

  -- `match match_any.first()`
  unfoldable pub any_condition : String → List (MatchCondition F) → Outcome (Condition F)
  any_condition field [] = returned (err (bad_request "Should have at least one value for match"))
  any_condition field (match_text s ∷ ms) =
      returned (ok (clause (matches field (map to_string (match_text s ∷ ms)))))
  any_condition field ms = integers (λ ns. clause (matches_integers field ns)) (all_to_i64 ms)

  -- `match match_all.first()`
  unfoldable pub all_condition : String → List (MatchCondition F) → Outcome (Condition F)
  all_condition field [] = returned (err (bad_request "Should have at least one value for match"))
  all_condition field (match_text s ∷ ms) =
      returned (ok (all_of (map (λ m. matches field (to_string m ∷ [])) (match_text s ∷ ms))))
  all_condition field ms =
      integers (λ ns. all_of (map (λ n. matches_integers field (n ∷ [])) ns)) (all_to_i64 ms)

  unfoldable pub match_condition : FieldCondition F → Outcome (Condition F)
  match_condition c = elim c.match_any [
    | some ms ↦ any_condition c.field ms
    | none ↦ elim c.match_all [
      | some ms ↦ all_condition c.field ms
      | none ↦ returned (err (bad_request "No filter condition provided"))
    ]
  ]

  -- From the geographical conditions on.
  unfoldable pub geo_or_match_condition : FieldCondition F → Outcome (Condition F)
  geo_or_match_condition c = elim c.geo_bounding_box [
    | some box ↦ returned (ok (clause (in_bounding_box c.field box)))
    | none ↦ elim c.geo_radius [
      | some radius ↦ returned (
          ok
            (clause (in_radius c.field (record radius { radius = services.narrow radius.radius }))))
      | none ↦ elim c.geo_polygon [
        | some polygon ↦
            returned
              (ok (clause (in_polygon c.field polygon.exterior (unwrap_or polygon.interior []))))
        | none ↦ match_condition c
      ]
    ]
  ]

  -- From the ranges on.
  unfoldable pub plain_condition : FieldCondition F → Outcome (Condition F)
  plain_condition c = elim c.date_range [
    | some dates ↦ returned (get_date_range dates >>= λ r. ok (clause (in_range c.field r)))
    | none ↦ elim c.range [
      | some r ↦ returned (ok (clause (in_range c.field (get_range r))))
      | none ↦ geo_or_match_condition c
    ]
  ]

  -- The source returns an `Option`, which is always there.
  unfoldable pub convert_to_qdrant_condition :
      FieldCondition F → Option Bool → Uuid → Outcome (Condition F)
  convert_to_qdrant_condition c jsonb_prefilter dataset =
      if (is_some c.match_all || is_some c.match_any) && is_some c.range
      then returned (err (bad_request "Cannot have both match and range conditions"))
      else if unwrap_or jsonb_prefilter true && starts_with c.field "metadata."
      then with_points (services.metadata_points c dataset)
      else if starts_with c.field "group_metadata."
      then with_points (services.group_metadata_points c dataset)
      else if str_eq c.field "group_tag_set"
      then with_points (services.group_tag_set_points c dataset)
      else plain_condition c

  abbrev pub group_texts : List (Uuid × Option String) → List (MatchCondition F)
  group_texts groups = map (λ g. match_text (services.uuid_to_string g.0)) groups

  abbrev pub group_ids_condition :
      Option (List (MatchCondition F)) → Option (List (MatchCondition F)) → FieldCondition F
  group_ids_condition match_any match_all = record {
    field = "group_ids";
    match_any = match_any;
    match_all = match_all;
    range = none;
    date_range = none;
    geo_bounding_box = none;
    geo_radius = none;
    geo_polygon = none;
  }

  unfoldable pub convert_group_tracking_ids_to_group_ids :
      FieldCondition F → Uuid → Result (FieldCondition F)
  convert_group_tracking_ids_to_group_ids c dataset =
      if str_eq c.field "group_tracking_ids"
      then (elim c.match_any [
        | some ms ↦
            (services.get_group_ids_from_tracking_ids (map to_string ms) dataset >>= λ groups.
            ok (group_ids_condition (some (group_texts groups)) none))
        | none ↦ elim c.match_all [
          | some ms ↦
              (services.get_group_ids_from_tracking_ids (map to_string ms) dataset >>= λ groups.
              ok (group_ids_condition none (some (group_texts groups))))
          | none ↦ err (bad_request "match_any key not found for group_tracking_ids")
        ]
      ])
      else ok c
