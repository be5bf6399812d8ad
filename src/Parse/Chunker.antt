-- ===== src/Parse/Chunker.antt =====
-- server/src/operators/parse_operator.rs: the whole way from a document to its chunks.
use trieve.Prelude.{
  ℕ, suc, ◌≡◌, sym, ◌∙◌, subst, Bool, Option, List, [], ◌∷◌, ◌++◌, arith, ◌<◌, length,
  length-append,
}
use trieve.Parse.{Text, join, Libraries, without_newlines, pattern_or, coarse_doc_chunker}
use trieve.Parse.Groups.{split_groups-join}
use trieve.Parse.Pieces.{IsAscii, AllAscii, AllCounted, Covers, coarse_remove_large_chunks_ascii}

IsAscii-split : (x y : Text) → IsAscii (x ++ y) → IsAscii x × IsAscii y
IsAscii-split [] y h = (tt, h)
IsAscii-split (c ∷ x) y (a, h) = let (p, q) = IsAscii-split x y h in ((a, p), q)

AllAscii-join : (xs : List Text) → IsAscii (join xs) → AllAscii xs
AllAscii-join [] h = tt
AllAscii-join (x ∷ xs) h = let (p, q) = IsAscii-split x (join xs) h in (p, AllAscii-join xs q)

AllCounted-join : (xs : List Text) → length (join xs) < 16777216 → AllCounted xs
AllCounted-join [] h = tt
AllCounted-join (x ∷ xs) h = (
  omega (arith, length-append x (join xs)),
  AllCounted-join xs (omega (arith, length-append x (join xs))),
)

-- The text of a document that the chunker works on.
abbrev pub clean_text : {Regex : Type 0} → Libraries Regex → Text → Text
clean_text libs document = libs.html_text (without_newlines document)

-- Where the pattern cuts the text without loss, the text is ASCII with less than 2 ^ 24 characters, and
-- the target is not zero, the
-- chunks of a document hold its text in order, every character once, and no chunk has more than
-- 10000 characters.
pub coarse_doc_chunker_ascii :
    {Regex : Type 0} (libs : Libraries Regex) (document : Text) (split_pattern : Option Regex)
    (rebalance : Bool) (t : ℕ)
    → let text = clean_text libs document in
      join (libs.split_inclusive (pattern_or libs split_pattern) text) ≡ text
      → IsAscii (clean_text libs document)
      → length (clean_text libs document) < 16777216
      → Covers 10000
          (clean_text libs document)
          (coarse_doc_chunker libs document split_pattern rebalance (suc t))
unfolding coarse_doc_chunker
coarse_doc_chunker_ascii libs document split_pattern rebalance t whole ascii counted =
    let splits = libs.split_inclusive (pattern_or libs split_pattern) (clean_text libs document) in
    let (groups, e, j) = split_groups-join rebalance t splits in
    let text = j ∙ whole in
    let (new, q, k, w) =
      coarse_remove_large_chunks_ascii 10000 groups (omega arith)
        (AllAscii-join groups (subst IsAscii (sym text) ascii))
        (AllCounted-join groups (subst (λ x. length x < 16777216) (sym text) counted)) in
    (new, rw (e) q, k ∙ text, w)
