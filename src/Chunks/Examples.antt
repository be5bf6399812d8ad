-- ===== src/Chunks/Examples.antt =====
-- Chunks in the forms of server/src/data/models.rs.
use trieve.Prelude.{◌≡◌, refl, String, Option, none, some, List, [], ◌∷◌}
use trieve.Chunks.{ChunkMetadata, to_string_tag_set, from_string_tag_set, to_slim, from_slim}
use trieve.Chunks.Tags.{split_by, join_by, split}
use trieve.Chunks.Laws.{from_string-to_string}

abbrev tagged : Option (List (Option String)) → ChunkMetadata String
tagged tags = record {
  id = 1;
  link = none;
  qdrant_point_id = 2;
  created_at = 0;
  updated_at = 0;
  chunk_html = some "<p>bread</p>";
  metadata = none;
  tracking_id = none;
  time_stamp = none;
  dataset_id = 7;
  weight = "1.0";
  location = none;
  image_urls = none;
  tag_set = tags;
  num_value = none;
}

split_test : split "sweet,,salty" ≡ "sweet" ∷ "" ∷ "salty" ∷ []
unfolding split_by
split_test = refl

-- A set that begins with an empty tag is lost, and a comma cuts a tag in two.
first_empty_test :
    (from_string_tag_set (to_string_tag_set (tagged (some (some "" ∷ some "salty" ∷ []))))).tag_set
    ≡ some []
unfolding from_string_tag_set to_string_tag_set split_by join_by
first_empty_test = refl

comma_test :
    (from_string_tag_set (to_string_tag_set (tagged (some (some "salt,sweet" ∷ []))))).tag_set
    ≡ some (some "salt" ∷ some "sweet" ∷ [])
unfolding from_string_tag_set to_string_tag_set split_by join_by
comma_test = refl

-- No tags become one empty tag on the way through the slim form.
slim_test : (from_slim (to_slim (tagged (some [])))).tag_set ≡ some (some "" ∷ [])
unfolding from_slim to_slim split_by join_by
slim_test = refl

from_string-to_string_example :
    from_string_tag_set (to_string_tag_set (tagged (some (some "salt" ∷ some "sweet" ∷ []))))
    ≡ tagged (some (some "salt" ∷ some "sweet" ∷ []))
from_string-to_string_example =
    from_string-to_string (tagged (some (some "salt" ∷ some "sweet" ∷ []))) refl
