-- ===== src/Search/Rerank.antt =====
-- rerank_chunks of server/src/operators/search_operator.rs. `none` is a panic: at `metadata[0]` of a
-- chunk without metadata, or where `unwrap` meets distances or scores that cannot be compared.
pub mod Laws
pub mod Order
pub mod Examples
use Prim.Native.Nat.{Ordering, compare}
use trieve.Prelude.{
  ℕ, String, str_eq, Bool, true, false, Option, none, some, List, [], ◌∷◌, ◌&&◌, ◌||◌, map, length,
  leb, any, is_some, unwrap_or, if◌then◌else◌,
}
use trieve.Chunks.{GeoInfo, ChunkMetadata, ScoreChunkDto, Fresh, metadata_of, map_option}
use trieve.Search.Sort.{sort_by, max_by, min_by}

-- The arithmetic of floats, in which single and double precision are one type, and the distance on
-- the globe.
pub record Floats (F : Type 0) : Type 0 where
  pub add : F → F → F
  pub sub : F → F → F
  pub mul : F → F → F
  pub div : F → F → F
  pub zero_float : F
  pub one : F
  pub is_zero : F → Bool
  pub is_positive : F → Bool
  pub partial_cmp : F → F → Option Ordering
  pub haversine_distance : GeoInfo F → GeoInfo F → F

pub record GeoInfoWithBias (F : Type 0) : Type 0 where
  pub location : GeoInfo F
  pub bias : F

pub data SortOrder : Type 0 where
  desc asc : SortOrder

pub record SortByField : Type 0 where
  pub field : String
  pub direction : Option SortOrder
  pub prefetch_amount : Option ℕ

infixl 5 ◌>>=◌
abbrev pub ◌>>=◌ : {A B : Type 0} (step : Option A) → (A → Option B) → Option B
none >>= rest = none
some a >>= rest = rest a

abbrev pub map_all : {A B : Type 0} → (A → Option B) → List A → Option (List B)
map_all f [] = some []
map_all f (x ∷ xs) = elim (f x) [
  | none ↦ none
  | some y ↦ elim (map_all f xs) [ none ↦ none | some ys ↦ some (y ∷ ys) ]
]

abbrev pub same_tag : String → Option String → Bool
same_tag tag none = false
same_tag tag (some other) = str_eq other tag

abbrev pub cmp_option :
    {A : Type 0} → (A → A → Option Ordering) → Option A → Option A → Option Ordering
cmp_option cmp none none = some Ordering.eq
cmp_option cmp none (some b) = some Ordering.lt
cmp_option cmp (some a) none = some Ordering.gt
cmp_option cmp (some a) (some b) = cmp a b

abbrev pub present : {A : Type 0} → List (Option A) → List A
present [] = []
present (none ∷ xs) = present xs
present (some x ∷ xs) = x ∷ present xs

module _ {F : Type 0} (floats : Floats F) (fresh : Fresh) where
  -- `chunk.metadata[0].metadata()`, and the same of `get(0)`.
  abbrev pub first_metadata : ScoreChunkDto F → Option (ChunkMetadata F)
  first_metadata chunk = elim chunk.metadata [ [] ↦ none | m ∷ _ ↦ some (metadata_of fresh m) ]

  abbrev pub scale : F → ScoreChunkDto F → ScoreChunkDto F
  scale factor chunk = record chunk { score = floats.mul chunk.score factor }

  unfoldable pub weigh : ScoreChunkDto F → Option (ScoreChunkDto F)
  weigh chunk = elim (first_metadata chunk) [
    | none ↦ none
    | some m ↦ some (scale (if floats.is_zero m.weight then floats.one else m.weight) chunk)
  ]

  unfoldable pub apply_weights :
      Option Bool → List (ScoreChunkDto F) → Option (List (ScoreChunkDto F))
  apply_weights use_weights chunks =
      if unwrap_or use_weights true then map_all weigh chunks else some chunks

  abbrev pub location_of : ScoreChunkDto F → Option (Option (GeoInfo F))
  location_of chunk = map_option (λ m. m.location) (first_metadata chunk)

  -- What the distances and the scores are normalized by: the greatest and the least of each.
  pub record Bounds : Type 0 where
    pub max_distance : Option F
    pub min_distance : Option F
    pub max_score : Option F
    pub min_score : Option F

  abbrev pub distance_to : GeoInfo F → Option (GeoInfo F) → Option F
  distance_to center location = map_option (floats.haversine_distance center) location

  unfoldable pub bounds_of : GeoInfo F → List (ScoreChunkDto F) → Option Bounds
  bounds_of center chunks = do
    locations ← map_all location_of chunks
    let distances = present (map (distance_to center) locations)
    let scores = map (λ chunk. chunk.score) chunks
    max_distance ← max_by floats.partial_cmp distances
    min_distance ← min_by floats.partial_cmp distances
    max_score ← max_by floats.partial_cmp scores
    min_score ← min_by floats.partial_cmp scores
    some (record {
      max_distance = max_distance;
      min_distance = min_distance;
      max_score = max_score;
      min_score = min_score;
    })

  abbrev pub normalized : F → Option F → Option F → F
  normalized x greatest least =
      floats.div (floats.sub x (unwrap_or least floats.zero_float))
        (floats.sub (unwrap_or greatest floats.one) (unwrap_or least floats.zero_float))

  abbrev pub mix : F → F → F → F
  mix bias score distance =
      floats.add (floats.mul score (floats.sub floats.one bias))
        (floats.mul bias (floats.sub floats.one distance))

  unfoldable pub bias_one : GeoInfoWithBias F → Bounds → ScoreChunkDto F → Option (ScoreChunkDto F)
  bias_one query bounds chunk = elim (location_of chunk) [
    | none ↦ none
    | some location ↦ some (record chunk {
      score = mix query.bias (normalized chunk.score bounds.max_score bounds.min_score) (
          normalized (unwrap_or (distance_to query.location location) floats.zero_float)
            bounds.max_distance bounds.min_distance);
    })
  ]

  unfoldable pub bias_by_location :
      Option (GeoInfoWithBias F) → List (ScoreChunkDto F) → Option (List (ScoreChunkDto F))
  bias_by_location none chunks = some chunks
  bias_by_location (some query) chunks =
      if floats.is_positive query.bias
      then (bounds_of query.location chunks >>= λ bounds. map_all (bias_one query bounds) chunks)
      else some chunks

  abbrev pub has_tag : ScoreChunkDto F → String → Bool
  has_tag chunk tag = elim (first_metadata chunk) [
    | none ↦ false
    | some m ↦ any (same_tag tag) (unwrap_or m.tag_set [])
  ]

  -- The product of the weights of the tags that the chunk has.
  unfoldable pub tag_score : ScoreChunkDto F → List (String × F) → F → F
  tag_score chunk [] score = score
  tag_score chunk ((tag, weight) ∷ weights) score =
      tag_score chunk weights (if has_tag chunk tag then floats.mul score weight else score)

  abbrev pub apply_tag_weights :
      Option (List (String × F)) → List (ScoreChunkDto F) → List (ScoreChunkDto F)
  apply_tag_weights none chunks = chunks
  apply_tag_weights (some weights) chunks =
      map (λ chunk. scale (tag_score chunk weights floats.one) chunk) chunks

  abbrev pub or_equal : Option Ordering → Ordering
  or_equal o = unwrap_or o Ordering.eq

  -- Descending by score.
  abbrev pub by_score : ScoreChunkDto F → ScoreChunkDto F → Ordering
  by_score a b = or_equal (floats.partial_cmp b.score a.score)

  abbrev pub time_of : ScoreChunkDto F → Option ℕ
  time_of chunk = elim (first_metadata chunk) [ none ↦ none | some m ↦ m.time_stamp ]

  abbrev pub number_of : ScoreChunkDto F → Option F
  number_of chunk = elim (first_metadata chunk) [ none ↦ none | some m ↦ m.num_value ]

  abbrev pub ascending : Option SortOrder → Bool
  ascending (some asc) = true
  ascending _ = false

  abbrev pub by_time : Option SortOrder → ScoreChunkDto F → ScoreChunkDto F → Ordering
  by_time direction a b =
      if ascending direction
      then or_equal (cmp_option (λ x y. some (compare x y)) (time_of a) (time_of b))
      else or_equal (cmp_option (λ x y. some (compare x y)) (time_of b) (time_of a))

  abbrev pub by_number : Option SortOrder → ScoreChunkDto F → ScoreChunkDto F → Ordering
  by_number direction a b =
      if ascending direction
      then or_equal (cmp_option floats.partial_cmp (number_of a) (number_of b))
      else or_equal (cmp_option floats.partial_cmp (number_of b) (number_of a))

  -- Two or more chunks are compared, each of them by its metadata.
  unfoldable pub sort_checked :
      (ScoreChunkDto F → ScoreChunkDto F → Ordering)
      → List (ScoreChunkDto F)
      → Option (List (ScoreChunkDto F))
  sort_checked cmp chunks =
      if leb (length chunks) 1 || is_some (map_all first_metadata chunks)
      then some (sort_by cmp chunks)
      else none

  unfoldable pub sort_by_field :
      Option SortByField → List (ScoreChunkDto F) → Option (List (ScoreChunkDto F))
  sort_by_field none chunks = some chunks
  sort_by_field (some sort) chunks =
      if str_eq sort.field "time_stamp"
      then sort_checked (by_time sort.direction) chunks
      else if str_eq sort.field "num_value"
      then sort_checked (by_number sort.direction) chunks
      else some chunks

  unfoldable pub rerank_chunks :
      List (ScoreChunkDto F)
      → Option SortByField
      → Option (List (String × F))
      → Option Bool
      → Option (GeoInfoWithBias F)
      → Option (List (ScoreChunkDto F))
  rerank_chunks chunks sort tag_weights use_weights query_location = do
    weighted ← apply_weights use_weights chunks
    biased ← bias_by_location query_location weighted
    sort_by_field sort (sort_by by_score (apply_tag_weights tag_weights biased))
