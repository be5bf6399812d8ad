-- ===== src/Parse/Groups.antt =====
-- How the splits of a document are gathered into groups.
use native.Mathlib.Nat.{mul-suc, mul-zero, zero-mul, mod-lt, div-add-mod', le-div_iff_mul-le}
use trieve.Prelude.{
  ℕ, zero, suc, ◌+◌, ◌-◌, ◌*◌, ◌/◌, ◌%◌, ◌≤◌, ◌<◌, ◌≡◌, refl, ap, sym, ◌∙◌, min, Bool, true, false,
  some, List, [], ◌∷◌, ◌++◌, arith, length, take, drop, take-append-drop, length-drop, ltb,
  Bool-cases, inl, inr,
}
use mathlib.Core.List.{append_assoc, append-nil}
use trieve.Parse.{
  Text, join, ceil_div, plain_groups, rebalanced_groups, larger_groups, split_groups,
}

pub join-append : {A : Type 0} (xs ys : List (List A)) → join (xs ++ ys) ≡ join xs ++ join ys
join-append [] ys = refl
join-append (x ∷ xs) ys =
    ap (λ t. x ++ t) (join-append xs ys) ∙ sym (append_assoc x (join xs) (join ys))

join-take-drop :
    {A : Type 0} (n : ℕ) (xs : List (List A)) → join (take n xs) ++ join (drop n xs) ≡ join xs
join-take-drop n xs = sym (join-append (take n xs) (drop n xs)) ∙ ap join (take-append-drop n xs)

pub drop-min : {A : Type 0} (n : ℕ) (xs : List A) → drop (min n (length xs)) xs ≡ drop n xs
drop-min zero xs = ap (λ (k : ℕ). drop k xs) (let e : min 0 (length xs) ≡ 0 = omega arith in e)
drop-min (suc n) [] = ap (λ (k : ℕ). drop k []) (let e : min (suc n) 0 ≡ 0 = omega arith in e)
drop-min (suc n) (x ∷ xs) =
    ap (λ (k : ℕ). drop k (x ∷ xs))
      (let e : min (suc n) (suc (length xs)) ≡ suc (min n (length xs)) = omega arith in e)
    ∙ drop-min n xs

-- A cut at the n-th split, after which the rest comes out as `rest`, loses nothing.
join-cut :
    {A : Type 0} (n : ℕ) (xs : List (List A)) (rest : List A)
    → rest ≡ join (drop n xs)
    → join (take n xs) ++ rest ≡ join xs
join-cut n xs rest h = ap (λ t. join (take n xs) ++ t) h ∙ join-take-drop n xs

pub join-plain_groups :
    (fuel target : ℕ) (splits : List Text)
    → 0 < target
    → length splits ≤ fuel
    → join (plain_groups fuel target splits) ≡ join splits
unfolding plain_groups
join-plain_groups zero target [] pos h = refl
join-plain_groups zero target (x ∷ xs) pos h = absurd (omega arith)
join-plain_groups (suc fuel) target [] pos h = refl
join-plain_groups (suc fuel) target (x ∷ xs) pos h = join-cut target (x ∷ xs) _ (
    join-plain_groups fuel target (drop (min target (length (x ∷ xs))) (x ∷ xs)) pos
      (omega (arith, length-drop (min target (length (x ∷ xs))) (x ∷ xs)))
    ∙ ap join (drop-min target (x ∷ xs)))

pub length-plain_groups :
    (fuel target g : ℕ) (splits : List Text)
    → 0 < target
    → length splits ≤ fuel
    → length splits ≡ target * g
    → length (plain_groups fuel target splits) ≡ g
unfolding plain_groups
length-plain_groups zero target zero [] pos h e = refl
length-plain_groups zero target (suc g) [] pos h e = absurd (omega (arith, mul-suc target g))
length-plain_groups zero target g (x ∷ xs) pos h e = absurd (omega arith)
length-plain_groups (suc fuel) target zero [] pos h e = refl
length-plain_groups (suc fuel) target (suc g) [] pos h e = absurd (omega (arith, mul-suc target g))
length-plain_groups (suc fuel) target zero (x ∷ xs) pos h e =
    absurd (omega (arith, mul-zero target))
length-plain_groups (suc fuel) target (suc g) (x ∷ xs) pos h e =
    let n = min target (length (x ∷ xs)) in
    ap suc (
      length-plain_groups fuel target g (drop n (x ∷ xs)) pos
        (omega (arith, length-drop n (x ∷ xs)))
        (omega (arith, length-drop n (x ∷ xs), mul-suc target g)))

pub join-rebalanced_groups :
    (fuel target p r : ℕ) (splits : List Text)
    → let (groups, rest) = rebalanced_groups fuel target p r splits in
      join groups ++ join rest ≡ join splits
unfolding rebalanced_groups
join-rebalanced_groups zero target p r splits = refl
join-rebalanced_groups (suc fuel) target p zero splits = refl
join-rebalanced_groups (suc fuel) target p (suc r) splits =
    let n = min (target + min (suc r) p) (length splits) in
    let (groups, rest) = rebalanced_groups fuel target p (suc r - p) (drop n splits) in
    append_assoc (join (take n splits)) (join groups) (join rest)
    ∙ join-cut n splits _ (join-rebalanced_groups fuel target p (suc r - p) (drop n splits))

pub positive_factor : (r p g : ℕ) → suc r ≤ p * g → 0 < p
positive_factor r zero g h = absurd (omega (arith, zero-mul g))
positive_factor r (suc p) g h = omega arith

-- What is left after the larger groups are full groups, and with them there are `g` groups.
pub length-rebalanced_groups :
    (fuel target p r g : ℕ) (splits : List Text)
    → r ≤ fuel
    → r ≤ p * g
    → length splits ≡ target * g + r
    → let (groups, rest) = rebalanced_groups fuel target p r splits in
      (left : ℕ) × (length groups + left ≡ g) × (length rest ≡ target * left)
unfolding rebalanced_groups
length-rebalanced_groups zero target p r g splits f h e = (g, omega arith, omega arith)
length-rebalanced_groups (suc fuel) target p zero g splits f h e = (g, omega arith, omega arith)
length-rebalanced_groups (suc fuel) target p (suc r) zero splits f h e =
    absurd (omega (arith, mul-zero p))
length-rebalanced_groups (suc fuel) target p (suc r) (suc g) splits f h e =
    let n = min (target + min (suc r) p) (length splits) in
    let (left, a, b) =
      length-rebalanced_groups fuel target p (suc r - p) g (drop n splits)
        (omega (arith, positive_factor r p (suc g) h)) (omega (arith, mul-suc p g))
        (omega (arith, mul-suc target g, length-drop n splits)) in
    (left, omega (arith, a), b)

pub ceil_div-bound : (a b : ℕ) → 0 < b → a ≤ ceil_div a b * b
ceil_div-bound a b h = omega (arith, div-add-mod' (a + (b - 1)) b, mod-lt (a + (b - 1)) h)

pub div-positive : (t n : ℕ) → suc t ≤ n → 0 < n / suc t
div-positive t n h =
    (le-div_iff_mul-le {k = suc t} {x = 1} {y = n} (let z : 0 < suc t = omega arith in z)).1
      (omega arith)

join-larger_groups :
    (rebalance : Bool) (target : ℕ) (splits : List Text)
    → let (groups, rest) = larger_groups rebalance target splits in
      join groups ++ join rest ≡ join splits
unfolding larger_groups
join-larger_groups true target splits =
    join-rebalanced_groups (length splits % target) target _ _ splits
join-larger_groups false target splits = refl

-- All groups of a document with enough splits.
abbrev pub all_groups : Bool → ℕ → List Text → List Text
all_groups rebalance t splits =
    let (groups, rest) = larger_groups rebalance (suc t) splits in
    groups ++ plain_groups (length rest) (suc t) rest

join-all_groups :
    (rebalance : Bool) (t : ℕ) (splits : List Text)
    → join (all_groups rebalance t splits) ≡ join splits
join-all_groups rebalance t splits =
    let (groups, rest) = larger_groups rebalance (suc t) splits in
    join-append groups (plain_groups (length rest) (suc t) rest)
    ∙ ap (λ x. join groups ++ x)
        (join-plain_groups (length rest) (suc t) rest (omega arith) (omega arith))
    ∙ join-larger_groups rebalance (suc t) splits

-- For every target but zero the groups of a document hold its splits in their order, each of them
-- once.
pub split_groups-join :
    (rebalance : Bool) (t : ℕ) (splits : List Text)
    → (groups : List Text) × (split_groups rebalance (suc t) splits ≡ some groups)
      × (join groups ≡ join splits)
unfolding split_groups
split_groups-join rebalance t splits = elim (Bool-cases (ltb (length splits) (suc t))) [
  | inl b ↦ (join splits ∷ [], rw (b, split_groups) refl, append-nil (join splits))
  | inr b ↦
      (all_groups rebalance t splits, rw (b, split_groups) refl, join-all_groups rebalance t splits)
]
