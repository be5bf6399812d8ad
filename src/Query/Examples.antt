-- ===== src/Query/Examples.antt =====
-- Queries that parse_query of server/src/handlers/chunk_handler.rs takes apart.
use trieve.Prelude.{◌≡◌, refl, true, none, some, [], ◌∷◌, if◌then◌else◌}
use trieve.Chunks.Tags.{split_by, join_by}
use trieve.Query.{Texts, parse_query, without_stop_words, parts_of, is_space, is_empty_text}
use trieve.Query.StopWords.{reference, parse_query-reference}

abbrev texts : Texts
texts = record {
  stop_words = "the" ∷ "of" ∷ [];
  to_lowercase = λ word. word;
  is_whitespace = is_space;
  quoted = λ query. "\"bread\"" ∷ [];
}

parsed_test :
    parse_query texts "the taste of  -salt and \"bread\"" (some true) (some true) ≡ record {
      query = "taste  -salt and \"bread\"";
      quote_words = some ("\"bread\"" ∷ []);
      negated_words = some ("salt" ∷ []);
    }
unfolding parse_query without_stop_words parts_of split_by join_by
parsed_test = refl

-- Only stop words: the query stays.
only_stop_words_test : (parse_query texts "of the" none (some true)).query ≡ "of the"
unfolding parse_query without_stop_words parts_of split_by join_by
only_stop_words_test = refl

parse_query-reference_example : (parse_query texts "of the bread" none (some true)).query ≡ (
    if is_empty_text (reference texts "of the bread")
    then "of the bread"
    else reference texts "of the bread")
parse_query-reference_example = parse_query-reference texts "of the bread" none
