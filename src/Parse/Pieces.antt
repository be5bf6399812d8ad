-- ===== src/Parse/Pieces.antt =====
-- How a large chunk is cut into pieces, where all of its characters take one byte.
use native.Mathlib.Nat.{div-lt_iff_lt-mul, suc-mul, mul_comm}
use mathlib.Core.List.{append-nil}
use trieve.Prelude.{
  ℕ, zero, suc, ◌+◌, ◌-◌, ◌*◌, ◌/◌, ◌%◌, ◌≤◌, ◌<◌, ◌≡◌, refl, ap, ◌∙◌, min, true, false, Option,
  some, List, [], ◌∷◌, ◌++◌, arith, length, take, drop, take-append-drop, length-drop, length-take,
  ltb, Bool-cases, inl, inr, not, is_empty, retain,
}
use trieve.Parse.{
  Text, join, ceil_div, len_utf8, is_char_boundary, floor_boundary, drain_bytes, as_f32, cut,
  pieces, all_pieces, coarse_remove_large_chunks,
}
use trieve.Parse.Groups.{join-append, ceil_div-bound, positive_factor}

-- All characters of a text are ASCII, and take one byte.
abbrev pub IsAscii : Text → Type 0
IsAscii [] = Unit {0}
IsAscii (c ∷ cs) = (c < 128) × IsAscii cs

len_utf8-ascii : (c : ℕ) → c < 128 → len_utf8 c ≡ 1
unfolding len_utf8
len_utf8-ascii c h = ground arith

IsAscii-drop : (n : ℕ) (cs : Text) → IsAscii cs → IsAscii (drop n cs)
IsAscii-drop zero cs h = h
IsAscii-drop (suc n) [] h = h
IsAscii-drop (suc n) (c ∷ cs) (a, h) = IsAscii-drop n cs h

boundary_ascii : (cs : Text) (n : ℕ) → IsAscii cs → n ≤ length cs → is_char_boundary cs n ≡ true
unfolding is_char_boundary
boundary_ascii cs zero h l = refl
boundary_ascii [] (suc n) h l = absurd (omega arith)
boundary_ascii (c ∷ cs) (suc n) (a, h) l =
    let e : suc n - 1 ≡ n = omega arith in
    let b : ltb (suc n) 1 ≡ false = ground arith in
    rw (is_char_boundary, len_utf8-ascii c a, b, e) (boundary_ascii cs n h (omega arith))

floor_boundary_ascii : (cs : Text) (n : ℕ) → IsAscii cs → n ≤ length cs → floor_boundary cs n ≡ n
unfolding floor_boundary
floor_boundary_ascii cs zero h l = refl
floor_boundary_ascii cs (suc n) h l = rw (boundary_ascii cs (suc n) h l) refl

drain_bytes_ascii :
    (n : ℕ) (cs : Text) → IsAscii cs → n ≤ length cs → drain_bytes n cs ≡ some (drop n cs)
unfolding drain_bytes
drain_bytes_ascii zero cs h l = refl
drain_bytes_ascii (suc n) [] h l = absurd (omega arith)
drain_bytes_ascii (suc n) (c ∷ cs) (a, h) l =
    let e : suc n - 1 ≡ n = omega arith in
    let b : ltb (suc n) 1 ≡ false = ground arith in
    rw (drain_bytes, len_utf8-ascii c a, b, e) (drain_bytes_ascii n cs h (omega arith))

-- A count below 2 ^ 24 is what its f32 is.
as_f32_exact : (n : ℕ) → n < 16777216 → as_f32 n ≡ n
unfolding as_f32
as_f32_exact n h =
    let t : ltb n 16777216 ≡ true = ground arith in
    let q : n / 1 ≡ n = omega arith in
    let r : n % 1 ≡ 0 = omega arith in let m : n * 1 ≡ n = omega arith in rw (t, q, r, m) refl

-- No piece is longer than the limit.
abbrev pub AllWithin : ℕ → List Text → Type 0
AllWithin max [] = Unit {0}
AllWithin max (x ∷ xs) = (length x ≤ max) × AllWithin max xs

-- The pieces make up the chunk, and none is too long.
abbrev pub Covers : ℕ → Text → Option (List Text) → Type 0
Covers max chunk result =
    (new : List Text) × (result ≡ some new) × (join new ≡ chunk) × AllWithin max new

cut_step :
    (fuel size n a : ℕ) (cs rest : Text) (more : List Text)
    → min size (suc n) ≡ a
    → floor_boundary cs a ≡ a
    → min a (length cs) ≡ a
    → drain_bytes a cs ≡ some rest
    → as_f32 (suc n - a) ≡ suc n - a
    → cut fuel size (suc n - a) rest ≡ some more
    → cut (suc fuel) size (suc n) cs ≡ some (take a cs ∷ more)
unfolding cut
cut_step fuel size n a cs rest more e b m d x q = rw (cut, e, b, m, d, x, q) refl

cut_ascii :
    (fuel size n : ℕ) (cs : Text)
    → IsAscii cs
    → length cs ≡ n
    → n ≤ fuel
    → n < 16777216
    → 0 < size
    → Covers size cs (cut fuel size n cs)
unfolding cut
cut_ascii zero size n [] h e f b24 p = ([], refl, refl, tt)
cut_ascii zero size n (c ∷ cs) h e f b24 p = absurd (omega arith)
cut_ascii (suc fuel) size zero [] h e f b24 p = ([], refl, refl, tt)
cut_ascii (suc fuel) size zero (c ∷ cs) h e f b24 p = absurd (omega arith)
cut_ascii (suc fuel) size (suc n) cs h e f b24 p =
    let a = min size (suc n) in
    let b : floor_boundary cs a ≡ a = floor_boundary_ascii cs a h (omega arith) in
    let m : min a (length cs) ≡ a = omega arith in
    let (more, q, j, w) =
      cut_ascii fuel size (suc n - a) (drop a cs) (IsAscii-drop a cs h)
        (omega (arith, length-drop a cs)) (omega arith) (omega arith) p in
    (
      take a cs ∷ more,
      cut_step fuel size n a cs (drop a cs) more refl b m (drain_bytes_ascii a cs h (omega arith))
          (as_f32_exact (suc n - a) (omega arith)) q,
      ap (λ t. take a cs ++ t) j ∙ take-append-drop a cs,
      (omega (arith, length-take a cs), w),
    )

AllWithin-weaken : (a b : ℕ) (xs : List Text) → a ≤ b → AllWithin a xs → AllWithin b xs
AllWithin-weaken a b [] l h = tt
AllWithin-weaken a b (x ∷ xs) l (p, h) = (omega arith, AllWithin-weaken a b xs l h)

AllWithin-append :
    (max : ℕ) (xs ys : List Text) → AllWithin max xs → AllWithin max ys → AllWithin max (xs ++ ys)
AllWithin-append max [] ys p q = q
AllWithin-append max (x ∷ xs) ys (l, p) q = (l, AllWithin-append max xs ys p q)

ceil_div-positive : (a b : ℕ) → 0 < a → 0 < b → 0 < ceil_div a b
ceil_div-positive (suc a) b h p =
    positive_factor a (ceil_div (suc a) b) b (ceil_div-bound (suc a) b p)
ceil_div-positive zero b h p = absurd (omega arith)

ceil_div-le : (a b c : ℕ) → 0 < b → a ≤ b * c → ceil_div a b ≤ c
ceil_div-le a b c p h =
    let lt : ceil_div a b < suc c =
      (div-lt_iff_lt-mul {k = b} {x = a + (b - 1)} {y = suc c} p).1
        (omega (arith, suc-mul c b, mul_comm b c)) in
    omega (arith, lt)

pieces_small :
    (max : ℕ) (chunk : Text)
    → as_f32 (length chunk) ≡ length chunk
    → ltb (length chunk) max ≡ true
    → pieces max chunk ≡ some (chunk ∷ [])
unfolding pieces
pieces_small max chunk x t = rw (pieces, x, t) refl

pieces_large :
    (max : ℕ) (chunk : Text) (new : List Text)
    → as_f32 (length chunk) ≡ length chunk
    → ltb (length chunk) max ≡ false
    → cut
        (length chunk)
        (ceil_div (length chunk) (ceil_div (length chunk) max))
        (length chunk)
        chunk
      ≡ some new
    → pieces max chunk ≡ some new
unfolding pieces
pieces_large max chunk new x t q = rw (pieces, x, t) q

pieces_ascii :
    (max : ℕ) (chunk : Text)
    → 0 < max
    → IsAscii chunk
    → length chunk < 16777216
    → Covers max chunk (pieces max chunk)
pieces_ascii max chunk p h b24 =
    let x : as_f32 (length chunk) ≡ length chunk = as_f32_exact (length chunk) b24 in
    elim (Bool-cases (ltb (length chunk) max)) [
      | inl t ↦ (chunk ∷ [], pieces_small max chunk x t, append-nil chunk, (ground arith, tt))
      | inr t ↦
          let n = length chunk in
          let le : max ≤ n = ground arith in
          let num = ceil_div n max in
          let num_pos : 0 < num = ceil_div-positive n max (omega arith) p in
          let (new, q, j, w) =
            cut_ascii n (ceil_div n num) n chunk h refl (omega arith) b24
              (ceil_div-positive n num (omega arith) num_pos) in
          (
            new,
            pieces_large max chunk new x t q,
            j,
            AllWithin-weaken (ceil_div n num) max new
                (ceil_div-le n num max num_pos (ceil_div-bound n max p)) w,
          )
    ]

abbrev pub AllAscii : List Text → Type 0
AllAscii [] = Unit {0}
AllAscii (x ∷ xs) = IsAscii x × AllAscii xs

-- Each of the texts has less than 2 ^ 24 characters.
abbrev pub AllCounted : List Text → Type 0
AllCounted [] = Unit {0}
AllCounted (x ∷ xs) = (length x < 16777216) × AllCounted xs

all_pieces_ascii :
    (max : ℕ) (chunks : List Text)
    → 0 < max
    → AllAscii chunks
    → AllCounted chunks
    → Covers max (join chunks) (all_pieces max chunks)
all_pieces_ascii max [] p h b = ([], refl, refl, tt)
all_pieces_ascii max (chunk ∷ chunks) p (a, h) (b, bs) =
    let (new, q, j, w) = pieces_ascii max chunk p a b in
    let (rest, q', j', w') = all_pieces_ascii max chunks p h bs in
    (
      new ++ rest,
      rw (q, q') refl,
      join-append new rest ∙ ap (λ t. t ++ join rest) j ∙ ap (λ t. chunk ++ t) j',
      AllWithin-append max new rest w w',
    )

kept_nonempty :
    (max : ℕ) (xs : List Text)
    → AllWithin max xs
    → (join (retain (λ x. not (is_empty x)) xs) ≡ join xs)
      × AllWithin max (retain (λ x. not (is_empty x)) xs)
kept_nonempty max [] h = (refl, tt)
kept_nonempty max ([] ∷ xs) (l, h) = kept_nonempty max xs h
kept_nonempty max ((c ∷ cs) ∷ xs) (l, h) =
    let (j, w) = kept_nonempty max xs h in (ap (λ t. (c ∷ cs) ++ t) j, (l, w))

-- ASCII chunks of less than 2 ^ 24 characters each are cut into pieces of at most the limit, which is
-- positive, and the pieces hold the text of the chunks in its order, every character once; the cutting never panics on them.
pub coarse_remove_large_chunks_ascii :
    (max : ℕ) (chunks : List Text)
    → 0 < max
    → AllAscii chunks
    → AllCounted chunks
    → Covers max (join chunks) (coarse_remove_large_chunks max chunks)
unfolding coarse_remove_large_chunks
coarse_remove_large_chunks_ascii max chunks p h b =
    let (new, q, j, w) = all_pieces_ascii max chunks p h b in
    let (j', w') = kept_nonempty max new w in
    (retain (λ x. not (is_empty x)) new, rw q refl, j' ∙ j, w')
