-- ===== src/Parse/Examples.antt =====
-- Runs of server/src/operators/parse_operator.rs.
use trieve.Prelude.{◌/◌, ◌≡◌, refl, true, false, none, some, List, [], ◌∷◌, arith, length, Bool}
use trieve.Parse.{
  Text, join, Libraries, len_utf8, is_char_boundary, floor_boundary, drain_bytes, as_f32, cut,
  pieces, coarse_remove_large_chunks, plain_groups, rebalanced_groups, larger_groups, split_groups,
  coarse_doc_chunker,
}
use trieve.Parse.Groups.{split_groups-join}
use trieve.Parse.Sizes.{Parted, split_groups-length}
use trieve.Parse.Pieces.{Covers, coarse_remove_large_chunks_ascii}
use trieve.Parse.Chunker.{clean_text, coarse_doc_chunker_ascii}

abbrev seven : List Text
seven = (1 ∷ []) ∷ (2 ∷ []) ∷ (3 ∷ []) ∷ (4 ∷ []) ∷ (5 ∷ []) ∷ (6 ∷ []) ∷ (7 ∷ []) ∷ []

-- Seven splits with a target of three: two groups with rebalancing, and three without.
rebalanced_test : split_groups true 3 seven ≡ some ((1 ∷ 2 ∷ 3 ∷ 4 ∷ []) ∷ (5 ∷ 6 ∷ 7 ∷ []) ∷ [])
unfolding split_groups larger_groups rebalanced_groups plain_groups
rebalanced_test = refl

plain_test : split_groups false 3 seven ≡ some ((1 ∷ 2 ∷ 3 ∷ []) ∷ (4 ∷ 5 ∷ 6 ∷ []) ∷ (7 ∷ []) ∷ [])
unfolding split_groups larger_groups rebalanced_groups plain_groups
plain_test = refl

split_groups-join_example :
    (groups : List Text) × (split_groups true 3 seven ≡ some groups) × (join groups ≡ join seven)
split_groups-join_example = split_groups-join true 2 seven

split_groups-length_example :
    (groups : List Text) × (split_groups true 3 seven ≡ some groups)
    × (length groups ≡ length seven / 3)
    × Parted 3 seven groups
split_groups-length_example = split_groups-length 2 seven (omega arith) (omega arith)

abbrev words : List Text
words = (97 ∷ 98 ∷ 99 ∷ 100 ∷ 101 ∷ []) ∷ (102 ∷ []) ∷ []

coarse_remove_large_chunks_ascii_example :
    Covers 2 (join words) (coarse_remove_large_chunks 2 words)
coarse_remove_large_chunks_ascii_example =
    coarse_remove_large_chunks_ascii 2 words (omega arith)
      (
        (omega arith, (omega arith, (omega arith, (omega arith, (omega arith, tt))))),
        ((omega arith, tt), tt),
      )
      (omega arith, (omega arith, tt))

-- Characters of two bytes each: the fifth one and the sixth are lost, and the second and the third
-- come twice.
two_bytes_test :
    coarse_remove_large_chunks 2 ((1001 ∷ 1002 ∷ 1003 ∷ 1004 ∷ 1005 ∷ 1006 ∷ []) ∷ [])
    ≡ some ((1001 ∷ 1002 ∷ []) ∷ (1002 ∷ 1003 ∷ []) ∷ (1003 ∷ 1004 ∷ []) ∷ [])
unfolding coarse_remove_large_chunks pieces as_f32 cut drain_bytes floor_boundary is_char_boundary
    len_utf8
two_bytes_test = refl

abbrev libraries : Libraries Bool
libraries = record {
  html_text = λ text. text;
  sentence_ends = true;
  split_inclusive = λ pattern text. text ∷ [];
}

abbrev document : Text
document = 97 ∷ 46 ∷ 10 ∷ 98 ∷ []

coarse_doc_chunker_ascii_example :
    Covers 10000
      (clean_text libraries document)
      (coarse_doc_chunker libraries document none true 20)
coarse_doc_chunker_ascii_example =
    coarse_doc_chunker_ascii libraries document none true 19 refl
      (omega arith, (omega arith, (omega arith, (omega arith, tt)))) (omega arith)
