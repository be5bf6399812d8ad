-- ===== src/Query.antt =====
-- parse_query of server/src/handlers/chunk_handler.rs: the stop words, the quoted words and the
-- negated words of a query.
pub mod StopWords
pub mod Examples
use Prim.Native.Char.{Char, code}
use text.Mathlib.Text.{starts_with}
use Prim.Native.String.{len, slice}
use trieve.Prelude.{
  String, str_eq, Bool, true, false, Option, none, some, List, [], ◌∷◌, ◌++◌, map, ◌==◌, not, any,
  retain, is_empty, if◌then◌else◌,
}
use trieve.Errors.{bad_request, Result, ok, err}
use trieve.Chunks.Tags.{split_by, join_by}

pub record ParsedQuery : Type 0 where
  pub query : String
  pub quote_words : Option (List String)
  pub negated_words : Option (List String)

pub data ParsedQueryTypes (F : Type 0) : Type 0 where
  single : ParsedQuery → ParsedQueryTypes F
  multi : List (ParsedQuery × F) → ParsedQueryTypes F

unfoldable pub to_parsed_query : {F : Type 0} → ParsedQueryTypes F → Result ParsedQuery
to_parsed_query (single query) = ok query
to_parsed_query (multi queries) =
    err (bad_request "Cannot use Multi Query with cross encoder or highlights")

-- The list of stop words, and the operations on texts of the libraries.
pub record Texts : Type 0 where
  pub stop_words : List String
  pub to_lowercase : String → String
  pub is_whitespace : Char → Bool
  -- the matches of the pattern for quoted words
  pub quoted : String → List String

abbrev pub is_space : Char → Bool
is_space c = code c == 32

abbrev pub is_empty_text : String → Bool
is_empty_text text = str_eq text ""

-- `if words.is_empty() { None } else { Some(words) }`
abbrev pub some_words : List String → Option (List String)
some_words words = if is_empty words then none else some words

module _ (texts : Texts) where
  abbrev pub is_stop_word : String → Bool
  is_stop_word word = any (λ stop. str_eq stop (texts.to_lowercase word)) texts.stop_words

  -- The loop over the words and the flush after it: the parts between stop words, by the words of the
  -- current part.
  unfoldable pub parts_of : List String → List String → List String
  parts_of current [] = if is_empty current then [] else join_by " " current ∷ []
  parts_of current (word ∷ words) =
      if not (is_stop_word word)
      then parts_of (current ++ (word ∷ [])) words
      else if not (is_empty current)
      then join_by " " current ∷ parts_of [] words
      else parts_of [] words

  unfoldable pub without_stop_words : String → String
  without_stop_words query =
      let new_query = join_by " " (parts_of [] (split_by is_space query)) in
      if is_empty_text new_query then query else new_query

  abbrev pub apply_stop_words : Option Bool → String → String
  apply_stop_words (some true) query = without_stop_words query
  apply_stop_words _ query = query

  abbrev pub quote_words_of : String → Option (List String)
  quote_words_of query = some_words (retain (λ word. not (is_empty_text word)) (texts.quoted query))

  abbrev pub split_whitespace : String → List String
  split_whitespace query =
      retain (λ word. not (is_empty_text word)) (split_by texts.is_whitespace query)

  abbrev pub negated_words_of : String → Option (List String)
  negated_words_of query = some_words (
      map (λ word. slice word 1 (len word))
        (retain (λ word. starts_with word "-") (split_whitespace query)))

  abbrev pub with_terms : Option Bool → String → ParsedQuery
  with_terms (some true) query = record {
    query = query;
    quote_words = quote_words_of query;
    negated_words = negated_words_of query;
  }
  with_terms _ query = record { query = query; quote_words = none; negated_words = none }

  unfoldable pub parse_query : String → Option Bool → Option Bool → ParsedQuery
  parse_query query use_quote_negated_terms remove_stop_words =
      with_terms use_quote_negated_terms (apply_stop_words remove_stop_words query)
