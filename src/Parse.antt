-- ===== src/Parse.antt =====
-- server/src/operators/parse_operator.rs: how the text of a document is cut into chunks. A text is a
-- list of code points. The source counts in f32: a count is rounded by as_f32 where it is made and
-- where it is counted down; the rounding of a quotient never crosses a whole number for counts below
-- 2 ^ 24, so `ceil` of a quotient is exact there. The numbers of splits are taken as exact.
pub mod Groups
pub mod Sizes
pub mod Pieces
pub mod Chunker
pub mod Examples
use trieve.Prelude.{
  ℕ, zero, suc, ◌+◌, ◌-◌, ◌/◌, ◌%◌, ◌*◌, ◌||◌, ◌&&◌, min, Bool, true, false, Option, none, some,
  List, [], ◌∷◌, ◌++◌, ltb, ◌==◌, if◌then◌else◌, length, take, drop, retain, is_empty, not, map,
}

abbrev pub Text : Type 0
Text = List ℕ

-- `join("")`
abbrev pub join {ℓ} : {A : Type ℓ} → List (List A) → List A
join [] = []
join (x ∷ xs) = x ++ join xs

-- `(a / b).ceil()`
abbrev pub ceil_div : ℕ → ℕ → ℕ
ceil_div a b = (a + (b - 1)) / b

-- The distance of the values that an f32 has at n, which doubles at each power of two from 2 ^ 24 on.
abbrev pub f32_spacing : ℕ → ℕ → ℕ
f32_spacing zero n = 1
f32_spacing (suc fuel) n =
    let rest = f32_spacing fuel (n / 2) in if ltb n 16777216 then 1 else 2 * rest

-- The nearest multiple of `spacing`, the even one of two.
abbrev pub nearest : ℕ → ℕ → ℕ
nearest spacing n =
    let q = n / spacing in
    let r = n % spacing in
    if ltb spacing (2 * r) || (2 * r == spacing && q % 2 == 1)
    then (q + 1) * spacing
    else q * spacing

-- `as f32` of a count of at most 64 bits.
unfoldable pub as_f32 : ℕ → ℕ
as_f32 n = nearest (f32_spacing 64 n) n

-- `len_utf8`
unfoldable pub len_utf8 : ℕ → ℕ
len_utf8 c = if ltb c 128 then 1 else if ltb c 2048 then 2 else if ltb c 65536 then 3 else 4

-- `str::is_char_boundary`
unfoldable pub is_char_boundary : Text → ℕ → Bool
is_char_boundary chunk zero = true
is_char_boundary [] (suc n) = false
is_char_boundary (c ∷ cs) (suc n) =
    let rest = is_char_boundary cs (suc n - len_utf8 c) in
    if ltb (suc n) (len_utf8 c) then false else rest

-- `while !chunk.is_char_boundary(amt_to_take) { amt_to_take -= 1; }`
unfoldable pub floor_boundary : Text → ℕ → ℕ
floor_boundary chunk zero = zero
floor_boundary chunk (suc n) =
    let below = floor_boundary chunk n in if is_char_boundary chunk (suc n) then suc n else below

-- `chunk.drain(0..n)`, in bytes: `none` is the panic off a boundary.
unfoldable pub drain_bytes : ℕ → Text → Option Text
drain_bytes zero chunk = some chunk
drain_bytes (suc n) [] = none
drain_bytes (suc n) (c ∷ cs) =
    let rest = drain_bytes (suc n - len_utf8 c) cs in
    if ltb (suc n) (len_utf8 c) then none else rest

abbrev pub and_then {ℓ} : {A B : Type ℓ} → Option A → (A → Option B) → Option B
and_then none f = none
and_then (some a) f = f a

-- `while total_length > 0.0`; each round takes at least one, so `total_length` is fuel enough.
unfoldable pub cut : ℕ → ℕ → ℕ → Text → Option (List Text)
cut zero chunk_size total_length chunk = some []
cut (suc fuel) chunk_size zero chunk = some []
cut (suc fuel) chunk_size (suc n) chunk =
    let amt_to_remove = min chunk_size (suc n) in
    let boundary = floor_boundary chunk amt_to_remove in
    let amt_to_take = min boundary (length chunk) in
    and_then (drain_bytes amt_to_take chunk) (λ rest.
      and_then (cut fuel chunk_size (as_f32 (suc n - amt_to_remove)) rest)
        (λ more. some (take boundary chunk ∷ more)))

-- The pieces of one chunk, with `max_chunk_len`, which the source fixes to 10000.
unfoldable pub pieces : ℕ → Text → Option (List Text)
pieces max_chunk_len chunk =
    let char_count = as_f32 (length chunk) in
    if ltb char_count max_chunk_len
    then some (chunk ∷ [])
    else (let num_new_chunks = ceil_div char_count max_chunk_len in
        cut char_count (ceil_div char_count num_new_chunks) char_count chunk)

abbrev pub all_pieces : ℕ → List Text → Option (List Text)
all_pieces max [] = some []
all_pieces max (chunk ∷ chunks) =
    and_then (pieces max chunk)
      (λ new. and_then (all_pieces max chunks) (λ rest. some (new ++ rest)))

unfoldable pub coarse_remove_large_chunks : ℕ → List Text → Option (List Text)
coarse_remove_large_chunks max chunks =
    and_then (all_pieces max chunks) (λ new. some (retain (λ x. not (is_empty x)) new))

-- `while !splits.is_empty()`; each round takes at least one split.
unfoldable pub plain_groups : ℕ → ℕ → List Text → List Text
plain_groups zero target splits = []
plain_groups (suc fuel) target [] = []
plain_groups (suc fuel) target (x ∷ xs) =
    let drain_amt = min target (length (x ∷ xs)) in
    join (take target (x ∷ xs)) ∷ plain_groups fuel target (drop drain_amt (x ∷ xs))

-- `while remainder > 0.0`: the groups, and the splits that are left.
unfoldable pub rebalanced_groups : ℕ → ℕ → ℕ → ℕ → List Text → List Text × List Text
rebalanced_groups zero target remainder_per_group remainder splits = ([], splits)
rebalanced_groups (suc fuel) target remainder_per_group zero splits = ([], splits)
rebalanced_groups (suc fuel) target remainder_per_group (suc r) splits =
    let group_size = min (target + min (suc r) remainder_per_group) (length splits) in
    let (groups, rest) =
      rebalanced_groups fuel target remainder_per_group (suc r - remainder_per_group)
        (drop group_size splits) in
    (join (take group_size splits) ∷ groups, rest)

-- `if rebalance_chunks`: the larger groups, and the splits that are left.
unfoldable pub larger_groups : Bool → ℕ → List Text → List Text × List Text
larger_groups true target splits =
    let remainder = length splits % target in
    rebalanced_groups remainder target (ceil_div remainder (length splits / target)) remainder
      splits
larger_groups false target splits = ([], splits)

-- The groups of a document, before the large ones are cut; `none` is the division by zero.
unfoldable pub split_groups : Bool → ℕ → List Text → Option (List Text)
split_groups rebalance_chunks zero splits = none
split_groups rebalance_chunks (suc t) splits =
    if ltb (length splits) (suc t)
    then some (join splits ∷ [])
    else (let (groups, rest) = larger_groups rebalance_chunks (suc t) splits in
        some (groups ++ plain_groups (length rest) (suc t) rest))

-- The `scraper` and `regex` crates.
pub record Libraries (Regex : Type 0) : Type 0 where
  -- the text of an HTML fragment
  pub html_text : Text → Text
  -- `[.!?\n]+`
  pub sentence_ends : Regex
  pub split_inclusive : Regex → Text → List Text

abbrev pub without_newlines : Text → Text
without_newlines document = map (λ c. if c == 10 then 32 else c) document

abbrev pub pattern_or : {Regex : Type 0} → Libraries Regex → Option Regex → Regex
pattern_or libs none = libs.sentence_ends
pattern_or libs (some pattern) = pattern

unfoldable pub coarse_doc_chunker :
    {Regex : Type 0} → Libraries Regex → Text → Option Regex → Bool → ℕ → Option (List Text)
coarse_doc_chunker libs document split_pattern rebalance_chunks target_splits_per_chunk =
    let clean_text = libs.html_text (without_newlines document) in
    let splits = libs.split_inclusive (pattern_or libs split_pattern) clean_text in
    and_then (split_groups rebalance_chunks target_splits_per_chunk splits)
      (coarse_remove_large_chunks 10000)
