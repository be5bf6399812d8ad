-- ===== src/Search/Rerank/Laws.antt =====
-- What rerank_chunks of server/src/operators/search_operator.rs does to a list of results.
use Prim.Native.Nat.{Ordering}
use mathlib.Core.List.{Permᴰ}
use mathlib.Core.List.Permᴰ
use trieve.Prelude.{
  ◌≡◌, refl, sym, ap, ◌∙◌, subst, inl, inr, String, Bool, true, Option, none, some, List, [], ◌∷◌,
  map, unwrap_or, Bool-cases, Option-cases, some-injective, none-ne-some, leb, length, is_some,
  ◌||◌,
}
use trieve.Chunks.{ChunkMetadataTypes, ScoreChunkDto, Fresh}
use trieve.Search.Sort.{sort_by}
use trieve.Search.Rerank.{
  Floats, GeoInfoWithBias, ◌>>=◌, map_all, weigh, apply_weights, bounds_of, Bounds, bias_one,
  bias_by_location, apply_tag_weights, scale, sort_checked, first_metadata, location_of,
}

pub chain_some :
    {A B : Type 0} (step : Option A) (rest : A → Option B) (b : B)
    → (step >>= rest) ≡ some b
    → (a : A) × (step ≡ some a) × (rest a ≡ some b)
chain_some none rest b h = cc
chain_some (some a) rest b h = (a, refl, h)

-- What a result is, but for its score.
abbrev pub payload :
    {F : Type 0} → ScoreChunkDto F → List (ChunkMetadataTypes F) × Option (List String)
payload chunk = (chunk.metadata, chunk.highlights)

-- The same results in some order, with other scores.
abbrev pub SameResults : {F : Type 0} → List (ScoreChunkDto F) → List (ScoreChunkDto F) → Type 0
SameResults after before = Permᴰ (map payload after) (map payload before)

pub same-SameResults :
    {F : Type 0} (after before : List (ScoreChunkDto F))
    → map payload after ≡ map payload before
    → SameResults after before
same-SameResults after before h =
    subst (λ xs. Permᴰ (map payload after) xs) h (Permᴰ.refl (map payload after))

map_all-payload :
    {F : Type 0} (f : ScoreChunkDto F → Option (ScoreChunkDto F))
    → ((chunk after : ScoreChunkDto F) → f chunk ≡ some after → payload after ≡ payload chunk)
    → (chunks after : List (ScoreChunkDto F)) → map_all f chunks ≡ some after
    → map payload after ≡ map payload chunks
map_all-payload f keeps [] after h = ap (map payload) (sym (some-injective h))
map_all-payload f keeps (chunk ∷ chunks) after h = elim (Option-cases (f chunk)) [
  | inl a ↦ absurd (none-ne-some (rw (map_all, a) at h))
  | inr (one, a) ↦ elim (Option-cases (map_all f chunks)) [
    | inl b ↦ absurd (none-ne-some (rw (map_all, a, b) at h))
    | inr (rest, b) ↦
        ap (map payload) (sym (some-injective (rw (map_all, a, b) at h)))
        ∙ ap (λ p. p ∷ map payload rest) (keeps chunk one a)
        ∙ ap (λ ps. payload chunk ∷ ps) (map_all-payload f keeps chunks rest b)
  ]
]

module _ {F : Type 0} (floats : Floats F) (fresh : Fresh) where
  weigh-payload :
      (chunk after : ScoreChunkDto F)
      → weigh floats fresh chunk ≡ some after
      → payload after ≡ payload chunk
  unfolding weigh
  weigh-payload chunk after h = elim (Option-cases (first_metadata floats fresh chunk)) [
    | inl a ↦ absurd (none-ne-some (rw (weigh, a) at h))
    | inr (m, a) ↦ ap payload (sym (some-injective (rw (weigh, a) at h)))
  ]

  pub apply_weights-payload :
      (use_weights : Option Bool) (chunks after : List (ScoreChunkDto F))
      → apply_weights floats fresh use_weights chunks ≡ some after
      → map payload after ≡ map payload chunks
  unfolding apply_weights
  apply_weights-payload use_weights chunks after h =
      elim (Bool-cases (unwrap_or use_weights true)) [
        | inl a ↦ map_all-payload _ weigh-payload chunks after (rw (apply_weights, a) at h)
        | inr a ↦ ap (map payload) (sym (some-injective (rw (apply_weights, a) at h)))
      ]

  bias_one-payload :
      (query : GeoInfoWithBias F) (bounds : Bounds floats fresh) (chunk after : ScoreChunkDto F)
      → bias_one floats fresh query bounds chunk ≡ some after
      → payload after ≡ payload chunk
  unfolding bias_one
  bias_one-payload query bounds chunk after h =
      elim (Option-cases (location_of floats fresh chunk)) [
        | inl a ↦ absurd (none-ne-some (rw (bias_one, a) at h))
        | inr (m, a) ↦ ap payload (sym (some-injective (rw (bias_one, a) at h)))
      ]

  pub bias_by_location-payload :
      (query : Option (GeoInfoWithBias F)) (chunks after : List (ScoreChunkDto F))
      → bias_by_location floats fresh query chunks ≡ some after
      → map payload after ≡ map payload chunks
  unfolding bias_by_location
  bias_by_location-payload none chunks after h = ap (map payload) (sym (some-injective h))
  bias_by_location-payload (some query) chunks after h =
      elim (Bool-cases (floats.is_positive query.bias)) [
        | inr a ↦ ap (map payload) (sym (some-injective (rw (bias_by_location, a) at h)))
        | inl a ↦
            let (bounds, b, g) =
              chain_some (bounds_of floats fresh query.location chunks) _ after
                (rw (bias_by_location, a) at h) in
            map_all-payload _ (bias_one-payload query bounds) chunks after g
      ]

  map-payload :
      (f : ScoreChunkDto F → F) (chunks : List (ScoreChunkDto F))
      → map payload (map (λ chunk. scale floats fresh (f chunk) chunk) chunks) ≡ map payload chunks
  map-payload f [] = refl
  map-payload f (chunk ∷ chunks) = ap (λ ps. payload chunk ∷ ps) (map-payload f chunks)

  pub apply_tag_weights-payload :
      (weights : Option (List (String × F))) (chunks : List (ScoreChunkDto F))
      → map payload (apply_tag_weights floats fresh weights chunks) ≡ map payload chunks
  apply_tag_weights-payload none chunks = refl
  apply_tag_weights-payload (some weights) chunks = map-payload _ chunks

  pub sort_checked-sorts :
      (cmp : ScoreChunkDto F → ScoreChunkDto F → Ordering) (chunks after : List (ScoreChunkDto F))
      → sort_checked floats fresh cmp chunks ≡ some after
      → sort_by cmp chunks ≡ after
  unfolding sort_checked
  sort_checked-sorts cmp chunks after h =
      elim (Bool-cases
        (leb (length chunks) 1 || is_some (map_all (first_metadata floats fresh) chunks))) [
          | inl a ↦ some-injective (rw (sort_checked, a) at h)
          | inr a ↦ absurd (none-ne-some (rw (sort_checked, a) at h))
        ]
