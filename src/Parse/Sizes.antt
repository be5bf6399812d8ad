-- ===== src/Parse/Sizes.antt =====
-- How many groups a document is rebalanced into, and how large they are.
use native.Mathlib.Nat.{mul-suc, mul-zero, div-add-mod}
use trieve.Prelude.{
  ℕ, zero, suc, ◌+◌, ◌-◌, ◌*◌, ◌/◌, ◌%◌, ◌≤◌, ◌<◌, ◌≡◌, refl, ap, sym, ◌∙◌, min, true, false, some,
  List, [], ◌∷◌, ◌++◌, map, arith, length, take, drop, take-append-drop, length-take, length-drop,
  length-append, ltb,
}
use mathlib.Core.List.{append_assoc}
use trieve.Parse.{
  Text, join, ceil_div, plain_groups, rebalanced_groups, larger_groups, split_groups,
}
use trieve.Parse.Groups.{
  join-append, drop-min, ceil_div-bound, div-positive, length-plain_groups,
  length-rebalanced_groups, positive_factor, all_groups,
}

-- Each part has at least n splits.
abbrev pub AllAtLeast : ℕ → List (List Text) → Type 0
AllAtLeast n [] = Unit {0}
AllAtLeast n (part ∷ parts) = (n ≤ length part) × AllAtLeast n parts

AllAtLeast-append :
    (n : ℕ) (xs ys : List (List Text)) → AllAtLeast n xs → AllAtLeast n ys → AllAtLeast n (xs ++ ys)
AllAtLeast-append n [] ys h k = k
AllAtLeast-append n (x ∷ xs) ys (l, h) k = (l, AllAtLeast-append n xs ys h k)

map-append : (xs ys : List (List Text)) → map join (xs ++ ys) ≡ map join xs ++ map join ys
map-append [] ys = refl
map-append (x ∷ xs) ys = ap (λ zs. join x ∷ zs) (map-append xs ys)

-- The groups are the texts of parts of the splits, in order, each with at least `target` splits.
abbrev pub Parted : ℕ → List Text → List Text → Type 0
Parted target splits groups =
    (parts : List (List Text)) × (groups ≡ map join parts)
    × (join parts ≡ splits)
    × AllAtLeast target parts

plain_groups-Parted :
    (fuel target g : ℕ) (splits : List Text)
    → 0 < target
    → length splits ≤ fuel
    → length splits ≡ target * g
    → Parted target splits (plain_groups fuel target splits)
unfolding plain_groups
plain_groups-Parted zero target g [] pos h e = ([], refl, refl, tt)
plain_groups-Parted zero target g (x ∷ xs) pos h e = absurd (omega arith)
plain_groups-Parted (suc fuel) target g [] pos h e = ([], refl, refl, tt)
plain_groups-Parted (suc fuel) target zero (x ∷ xs) pos h e =
    absurd (omega (arith, mul-zero target))
plain_groups-Parted (suc fuel) target (suc g) (x ∷ xs) pos h e =
    let n = min target (length (x ∷ xs)) in
    let (parts, m, j, l) =
      plain_groups-Parted fuel target g (drop n (x ∷ xs)) pos
        (omega (arith, length-drop n (x ∷ xs)))
        (omega (arith, length-drop n (x ∷ xs), mul-suc target g)) in
    (
      take target (x ∷ xs) ∷ parts,
      ap (λ gs. join (take target (x ∷ xs)) ∷ gs) m,
      ap (λ t. take target (x ∷ xs) ++ t) (j ∙ drop-min target (x ∷ xs))
          ∙ take-append-drop target (x ∷ xs),
      (omega (arith, length-take target (x ∷ xs), mul-suc target g), l),
    )

rebalanced_groups-Parted :
    (fuel target p r g : ℕ) (splits : List Text)
    → r ≤ fuel
    → r ≤ p * g
    → length splits ≡ target * g + r
    → let (groups, rest) = rebalanced_groups fuel target p r splits in
      (parts : List (List Text)) × (groups ≡ map join parts)
      × (join parts ++ rest ≡ splits)
      × AllAtLeast target parts
unfolding rebalanced_groups
rebalanced_groups-Parted zero target p r g splits f h e = ([], refl, refl, tt)
rebalanced_groups-Parted (suc fuel) target p zero g splits f h e = ([], refl, refl, tt)
rebalanced_groups-Parted (suc fuel) target p (suc r) zero splits f h e =
    absurd (omega (arith, mul-zero p))
rebalanced_groups-Parted (suc fuel) target p (suc r) (suc g) splits f h e =
    let n = min (target + min (suc r) p) (length splits) in
    let (groups, rest) = rebalanced_groups fuel target p (suc r - p) (drop n splits) in
    let (parts, m, j, l) =
      rebalanced_groups-Parted fuel target p (suc r - p) g (drop n splits)
        (omega (arith, positive_factor r p (suc g) h)) (omega (arith, mul-suc p g))
        (omega (arith, mul-suc target g, length-drop n splits)) in
    (
      take n splits ∷ parts,
      ap (λ gs. join (take n splits) ∷ gs) m,
      append_assoc (take n splits) (join parts) rest
          ∙ ap (λ t. take n splits ++ t) j
          ∙ take-append-drop n splits,
      (omega (arith, length-take n splits, mul-suc target g), l),
    )

all_groups-Parted :
    (t : ℕ) (splits : List Text)
    → suc t ≤ length splits
    → Parted (suc t) splits (all_groups true t splits)
unfolding larger_groups
all_groups-Parted t splits h =
    let n = length splits in
    let q = n / suc t in
    let r = n % suc t in
    let p = ceil_div r q in
    let (groups, rest) = rebalanced_groups r (suc t) p r splits in
    let bound = ceil_div-bound r q (div-positive t n h) in
    let whole = sym (div-add-mod n (suc t)) in
    let (left, a, b) = length-rebalanced_groups r (suc t) p r q splits (omega arith) bound whole in
    let (parts, m, j, l) =
      rebalanced_groups-Parted r (suc t) p r q splits (omega arith) bound whole in
    let (parts', m', j', l') =
      plain_groups-Parted (length rest) (suc t) left rest (omega arith) (omega arith) b in
    (
      parts ++ parts',
      ap (λ gs. gs ++ plain_groups (length rest) (suc t) rest) m
          ∙ ap (λ gs. map join parts ++ gs) m'
          ∙ sym (map-append parts parts'),
      join-append parts parts' ∙ ap (λ t. join parts ++ t) j' ∙ j,
      AllAtLeast-append (suc t) parts parts' l l',
    )

length-all_groups :
    (t : ℕ) (splits : List Text)
    → suc t ≤ length splits
    → length (all_groups true t splits) ≡ length splits / suc t
unfolding larger_groups
length-all_groups t splits h =
    let n = length splits in
    let q = n / suc t in
    let r = n % suc t in
    let p = ceil_div r q in
    let (groups, rest) = rebalanced_groups r (suc t) p r splits in
    let (left, a, b) =
      length-rebalanced_groups r (suc t) p r q splits (omega arith)
        (ceil_div-bound r q (div-positive t n h)) (sym (div-add-mod n (suc t))) in
    length-append groups (plain_groups (length rest) (suc t) rest)
    ∙ ap (λ k. length groups + k)
        (length-plain_groups (length rest) (suc t) left rest (omega arith) (omega arith) b)
    ∙ a

-- A document with at least as many splits as the target, which is not zero, and less than 2 ^ 24 of
-- them, is rebalanced into as many groups as the target goes into its splits, and each group has at
-- least the target of splits, so that no smaller group is left over.
pub split_groups-length :
    (t : ℕ) (splits : List Text)
    → suc t ≤ length splits
    → length splits < 16777216
    → (groups : List Text) × (split_groups true (suc t) splits ≡ some groups)
      × (length groups ≡ length splits / suc t)
      × Parted (suc t) splits groups
unfolding split_groups
split_groups-length t splits h _ =
    let b : ltb (length splits) (suc t) ≡ false = ground arith in
    (
      all_groups true t splits,
      rw (b, split_groups) refl,
      length-all_groups t splits h,
      all_groups-Parted t splits h,
    )
