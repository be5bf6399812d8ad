-- ===== src/Chunks/Laws.antt =====
-- What survives the way of a chunk through the forms of server/src/data/models.rs.
use Prim.Native.Char.{Char}
use Prim.Native.String.{◌++◌ as str_append, ◌∷◌ as str_cons, [] as str_nil}
use text.Mathlib.TextLemmas.{nil-append, cons-append}
use trieve.Prelude.{
  ◌≡◌, ◌≢◌, refl, ap, ◌∙◌, inl, inr, String, str_eq, Bool, true, false, not, ◌&&◌, Option, none,
  some, List, [], ◌∷◌, map, Bool-cases,
}
use trieve.Chunks.Tags.{split_by, join_by, is_comma, split, join, default_text}
use trieve.Chunks.{
  ChunkMetadata, join_tags, split_tags, drop_empty, map_option, to_string_tag_set,
  from_string_tag_set,
}

abbrev pub no_comma : String → Bool
no_comma str_nil = true
no_comma (str_cons c text) = not (is_comma c) && no_comma text

abbrev pub no_commas : List String → Bool
no_commas [] = true
no_commas (part ∷ parts) = no_comma part && no_commas parts

both : (a b : Bool) → (a && b) ≡ true → (a ≡ true) × (b ≡ true)
both true b h = (refl, h)
both false b h = (h, cc)

clash : (b r : Bool) → b ≡ true → (not b && r) ≢ true
clash true r a h = cc
clash false r a h = cc

true_of_not : (b : Bool) → not b ≡ true → b ≡ false
true_of_not true h = cc
true_of_not false h = refl

abbrev comma : Char
comma = ","

comma-append : (more : String) → str_append str_nil (str_append "," more) ≡ str_cons comma more
comma-append more =
    nil-append (str_append "," more)
    ∙ cons-append comma str_nil more
    ∙ ap (str_cons comma) (nil-append more)

split-word : (text : String) → no_comma text ≡ true → split text ≡ text ∷ []
unfolding split_by
split-word str_nil h = refl
split-word (str_cons c text) h = elim (Bool-cases (is_comma c)) [
  | inl a ↦ absurd (clash (is_comma c) (no_comma text) a h)
  | inr a ↦ rw (a, split-word text (both (not (is_comma c)) (no_comma text) h).1) refl
]

split-append :
    (text more : String)
    → no_comma text ≡ true
    → split (str_append text (str_append "," more)) ≡ text ∷ split more
unfolding split_by
split-append str_nil more h = ap split (comma-append more)
split-append (str_cons c text) more h = elim (Bool-cases (is_comma c)) [
  | inl a ↦ absurd (clash (is_comma c) (no_comma text) a h)
  | inr a ↦
      ap split (cons-append c text (str_append "," more))
      ∙ rw (a, split-append text more (both (not (is_comma c)) (no_comma text) h).1) refl
]

-- A list of texts without commas, of which there is at least one, is read as it was written.
pub split-join :
    (part : String) (parts : List String)
    → no_commas (part ∷ parts) ≡ true
    → split (join (part ∷ parts)) ≡ part ∷ parts
unfolding join_by
split-join part [] h = split-word part (both _ _ h).0
split-join part (next ∷ parts) h =
    split-append part (join (next ∷ parts)) (both _ _ h).0
    ∙ ap (λ ps. part ∷ ps) (split-join next parts (both _ _ h).1)

abbrev pub all_plain : List (Option String) → Bool
all_plain [] = true
all_plain (none ∷ tags) = false
all_plain (some tag ∷ tags) = no_comma tag && all_plain tags

-- The tags are all there, none has a comma, and the first of them is not empty.
abbrev pub tidy : List (Option String) → Bool
tidy [] = true
tidy (none ∷ tags) = false
tidy (some tag ∷ tags) = not (str_eq tag "") && all_plain (some tag ∷ tags)

plain_texts :
    (tags : List (Option String))
    → all_plain tags ≡ true
    → (no_commas (map default_text tags) ≡ true)
      × (map (λ t. some t) (map default_text tags) ≡ tags)
plain_texts [] h = (refl, refl)
plain_texts (none ∷ tags) h = cc
plain_texts (some tag ∷ tags) h =
    let (a, b) = both (no_comma tag) (all_plain tags) h in
    let (x, y) = plain_texts tags b in (rw (a, x) refl, ap (λ ts. some tag ∷ ts) y)

split-join_tags :
    (tags : List (Option String))
    → tidy tags ≡ true
    → drop_empty (split_tags (join_tags tags)) ≡ tags
unfolding join_by split_by
split-join_tags [] h = refl
split-join_tags (none ∷ tags) h = cc
split-join_tags (some tag ∷ tags) h =
    let (a, b) = both (not (str_eq tag "")) (all_plain (some tag ∷ tags)) h in
    let (x, y) = plain_texts (some tag ∷ tags) b in
    ap (λ ps. drop_empty (map (λ t. some t) ps)) (split-join tag (map default_text tags) x)
    ∙ rw (true_of_not (str_eq tag "") a) y

abbrev pub tidy_set : Option (List (Option String)) → Bool
tidy_set none = true
tidy_set (some tags) = tidy tags

split-join_set :
    (tags : Option (List (Option String)))
    → tidy_set tags ≡ true
    → map_option (λ text. drop_empty (split_tags text)) (map_option join_tags tags) ≡ tags
split-join_set none h = refl
split-join_set (some tags) h = ap some (split-join_tags tags h)

-- A chunk whose tags are all there, have no commas and do not begin with an empty one, is the same
-- after its tags have been written as one text and read again.
pub from_string-to_string :
    {F : Type 0} (chunk : ChunkMetadata F)
    → tidy_set chunk.tag_set ≡ true
    → from_string_tag_set (to_string_tag_set chunk) ≡ chunk
unfolding from_string_tag_set to_string_tag_set
from_string-to_string chunk h =
    ap (λ tags. record chunk { tag_set = tags }) (split-join_set chunk.tag_set h)
