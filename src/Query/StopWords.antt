-- ===== src/Query/StopWords.antt =====
-- What parse_query of server/src/handlers/chunk_handler.rs leaves of a query.
use Prim.Native.String.{◌++◌ as str_append}
use text.Mathlib.TextLemmas.{append_assoc}
use trieve.Prelude.{
  ◌≡◌, refl, sym, subst, ap, ◌∙◌, inl, inr, String, Bool, true, false, not, Option, none, some,
  List, [], ◌∷◌, ◌++◌, retain, is_empty, if◌then◌else◌, Bool-cases,
}
use trieve.Chunks.Tags.{split_by, join_by}
use trieve.Query.{
  Texts, is_stop_word, is_space, is_empty_text, parts_of, without_stop_words, parse_query,
}

module _ (texts : Texts) where
  -- The words that are no stop words, in their order.
  abbrev pub kept : List String → List String
  kept words = retain (λ word. not (is_stop_word texts word)) words

  -- The reference: the words that are kept, with one space between them.
  abbrev pub reference : String → String
  reference query = join_by " " (kept (split_by is_space query))

  -- Two joined lists, the second of which is joined already.
  join_parts :
      (word : String) (words rest : List String)
      → join_by " " ((word ∷ words) ++ rest) ≡ (
          if is_empty rest
          then join_by " " (word ∷ words)
          else str_append (join_by " " (word ∷ words)) (str_append " " (join_by " " rest)))
  unfolding join_by
  join_parts word [] [] = refl
  join_parts word [] (r ∷ rest) = refl
  join_parts word (next ∷ words) [] =
      ap (λ t. str_append word (str_append " " t)) (join_parts next words [])
  join_parts word (next ∷ words) (r ∷ rest) =
      ap (λ t. str_append word (str_append " " t)) (join_parts next words (r ∷ rest))
      ∙ sym (
          append_assoc word (str_append " " (join_by " " (next ∷ words)))
            (str_append " " (join_by " " (r ∷ rest)))
          ∙ ap (str_append word) (
              append_assoc " " (join_by " " (next ∷ words))
                (str_append " " (join_by " " (r ∷ rest)))))

  append_word :
      (current : List String) (word : String) (rest : List String)
      → (current ++ (word ∷ [])) ++ rest ≡ current ++ (word ∷ rest)
  append_word [] word rest = refl
  append_word (c ∷ current) word rest = ap (λ ws. c ∷ ws) (append_word current word rest)

  empty_append : (current rest : List String) → is_empty current ≡ true → current ++ rest ≡ rest
  empty_append [] rest h = refl
  empty_append (c ∷ current) rest h = cc

  -- What is joined is the same, and so is whether there is anything.
  abbrev Agree : List String → List String → Type 0
  Agree parts words = (join_by " " parts ≡ join_by " " words) × (is_empty parts ≡ is_empty words)

  flush-Agree :
      (current : List String)
      → Agree (if is_empty current then [] else join_by " " current ∷ []) (current ++ [])
  unfolding join_by
  flush-Agree [] = (refl, refl)
  flush-Agree (c ∷ current) = (sym (join_parts c current []), refl)

  cons-Agree :
      (current parts rest : List String)
      → is_empty current ≡ false
      → Agree parts rest
      → Agree (join_by " " current ∷ parts) (current ++ rest)
  unfolding join_by
  cons-Agree [] parts rest h a = cc
  cons-Agree (c ∷ current) [] [] h (x, y) = (sym (join_parts c current []), refl)
  cons-Agree (c ∷ current) [] (r ∷ rest) h (x, y) = cc
  cons-Agree (c ∷ current) (p ∷ parts) [] h (x, y) = cc
  cons-Agree (c ∷ current) (p ∷ parts) (r ∷ rest) h (x, y) = (
    ap (λ t. str_append (join_by " " (c ∷ current)) (str_append " " t)) x
        ∙ sym (join_parts c current (r ∷ rest)),
    refl,
  )

  parts_of-Agree :
      (current words : List String) → Agree (parts_of texts current words) (current ++ kept words)
  unfolding parts_of
  parts_of-Agree current [] = flush-Agree current
  parts_of-Agree current (word ∷ words) = elim (Bool-cases (is_stop_word texts word)) [
    | inr a ↦
        rw (parts_of, a)
          (subst (Agree (parts_of texts (current ++ (word ∷ [])) words))
            (append_word current word (kept words)) (parts_of-Agree (current ++ (word ∷ [])) words))
    | inl a ↦ elim (Bool-cases (is_empty current)) [
      | inl b ↦
          rw (parts_of, a, b)
            (subst (Agree (parts_of texts [] words)) (sym (empty_append current (kept words) b))
              (parts_of-Agree [] words))
      | inr b ↦
          rw (parts_of, a, b)
            (cons-Agree current (parts_of texts [] words) (kept words) b (parts_of-Agree [] words))
    ]
  ]

  without :
      (query : String)
      → without_stop_words texts query
        ≡ (if is_empty_text (reference query) then query else reference query)
  unfolding without_stop_words
  without query =
      ap (λ t. if is_empty_text t then query else t) (parts_of-Agree [] (split_by is_space query)).0

  -- Where stop words are to be removed, the query that is searched for has the words that are no stop
  -- words, with one space between them; if that leaves nothing, it is the query as it came.
  pub parse_query-reference :
      (query : String) (use_quote_negated_terms : Option Bool)
      → (parse_query texts query use_quote_negated_terms (some true)).query
        ≡ (if is_empty_text (reference query) then query else reference query)
  unfolding parse_query without_stop_words
  parse_query-reference query none = without query
  parse_query-reference query (some true) = without query
  parse_query-reference query (some false) = without query
