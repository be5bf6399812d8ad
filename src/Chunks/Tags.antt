-- ===== src/Chunks/Tags.antt =====
-- A tag set as one text with commas, the way server/src/data/models.rs writes and reads it.
use Prim.Native.Char.{Char, code}
use Prim.Native.String.{◌++◌ as str_append, ◌∷◌ as str_cons, [] as str_nil}
use trieve.Prelude.{String, Bool, Option, none, some, List, [], ◌∷◌, ◌==◌, if◌then◌else◌}

abbrev pub is_comma : Char → Bool
is_comma c = code c == 44

abbrev pub push_char : Char → List String → List String
push_char c [] = []
push_char c (part ∷ parts) = str_cons c part ∷ parts

-- `text.split(test)`
unfoldable pub split_by : (Char → Bool) → String → List String
split_by test str_nil = "" ∷ []
split_by test (str_cons c text) =
    let parts = split_by test text in if test c then "" ∷ parts else push_char c parts

-- `parts.join(separator)`
unfoldable pub join_by : String → List String → String
join_by separator [] = ""
join_by separator (part ∷ parts) = elim parts [
  | [] ↦ part
  | _ ∷ _ ↦ str_append part (str_append separator (join_by separator parts))
]

-- `text.split(',')`
abbrev pub split : String → List String
split text = split_by is_comma text

-- `parts.join(",")`
abbrev pub join : List String → String
join parts = join_by "," parts

-- `tag.unwrap_or_default()`
abbrev pub default_text : Option String → String
default_text none = ""
default_text (some tag) = tag
