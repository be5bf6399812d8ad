-- ===== src/Search/Sort.antt =====
-- `sort_by` of the standard library on lists, which keeps equal elements in their order, and `max_by`
-- and `min_by` of iterators, as server/src/operators/search_operator.rs uses them.
use Prim.Native.Nat.{Ordering}
use trieve.Prelude.{
  ◌≡◌, refl, Bool, true, false, Option, none, some, List, [], ◌∷◌, map, if◌then◌else◌, Bool-cases,
  inl, inr,
}
use mathlib.Core.List.{Permᴰ}
use mathlib.Core.List.Permᴰ

abbrev pub is_greater : Ordering → Bool
is_greater Ordering.gt = true
is_greater _ = false

module _ {ℓ} {A : Type ℓ} (cmp : A → A → Ordering) where
  abbrev pub insert : A → List A → List A
  insert x [] = x ∷ []
  insert x (y ∷ ys) =
      let rest = insert x ys in if is_greater (cmp x y) then y ∷ rest else x ∷ y ∷ ys

  unfoldable pub sort_by : List A → List A
  sort_by [] = []
  sort_by (x ∷ xs) = insert x (sort_by xs)

  -- No element is greater than the next one.
  abbrev pub Sorted : List A → Type 0
  Sorted [] = Unit
  Sorted (x ∷ xs) = elim xs [ [] ↦ Unit | y ∷ _ ↦ (is_greater (cmp x y) ≡ false) × Sorted xs ]

  -- Of two elements, at most one is greater than the other.
  abbrev pub Dual : Type ℓ
  Dual = (x y : A) → is_greater (cmp x y) ≡ true → is_greater (cmp y x) ≡ false

  Sorted-tail : (y : A) (ys : List A) → Sorted (y ∷ ys) → Sorted ys
  Sorted-tail y [] s = tt
  Sorted-tail y (x ∷ ys) s = s.1

  Sorted-cons-insert :
      Dual
      → (z x : A) (ys : List A) → is_greater (cmp z x) ≡ false
      → Sorted (z ∷ ys)
      → Sorted (insert x ys)
      → Sorted (z ∷ insert x ys)
  Sorted-cons-insert dual z x [] h s t = (h, tt)
  Sorted-cons-insert dual z x (y ∷ ys) h s t = elim (Bool-cases (is_greater (cmp x y))) [
    | inl b ↦ rw (b) (s.0, rw (b) at t)
    | inr b ↦ rw (b) (h, rw (b) at t)
  ]

  Sorted-insert : Dual → (x : A) (ys : List A) → Sorted ys → Sorted (insert x ys)
  Sorted-insert dual x [] s = tt
  Sorted-insert dual x (y ∷ ys) s = elim (Bool-cases (is_greater (cmp x y))) [
    | inl b ↦ rw (b) (
        Sorted-cons-insert dual y x ys (dual x y b) s
          (Sorted-insert dual x ys (Sorted-tail y ys s)))
    | inr b ↦ rw (b) (b, s)
  ]

  pub Sorted-sort_by : Dual → (xs : List A) → Sorted (sort_by xs)
  unfolding sort_by
  Sorted-sort_by dual [] = tt
  Sorted-sort_by dual (x ∷ xs) = Sorted-insert dual x (sort_by xs) (Sorted-sort_by dual xs)

module _ {A B : Type 0} (cmp : A → A → Ordering) (f : A → B) where
  insert-Perm : (x : A) (ys : List A) → Permᴰ (map f (insert cmp x ys)) (f x ∷ map f ys)
  insert-Perm x [] = Permᴰ.refl (f x ∷ [])
  insert-Perm x (y ∷ ys) = elim (Bool-cases (is_greater (cmp x y))) [
    | inr b ↦ rw (b) (Permᴰ.refl (f x ∷ f y ∷ map f ys))
    | inl b ↦ rw (b) (Permᴰ.trans (Permᴰ.cons refl (insert-Perm x ys)) (Permᴰ.swap refl refl))
  ]

  pub sort_by-Perm : (xs : List A) → Permᴰ (map f (sort_by cmp xs)) (map f xs)
  unfolding sort_by
  sort_by-Perm [] = Permᴰ.nil
  sort_by-Perm (x ∷ xs) =
      Permᴰ.trans (insert-Perm x (sort_by cmp xs)) (Permᴰ.cons refl (sort_by-Perm xs))

-- `max_by(|a, b| a.partial_cmp(b).unwrap())`: the last of the greatest. The outer `none` is the panic
-- of the `unwrap`.
module _ {F : Type 0} (partial_cmp : F → F → Option Ordering) where
  abbrev pub fold_max : F → List F → Option F
  fold_max best [] = some best
  fold_max best (x ∷ xs) = elim (partial_cmp best x) [
    | none ↦ none
    | some o ↦ if is_greater o then fold_max best xs else fold_max x xs
  ]

  abbrev pub max_by : List F → Option (Option F)
  max_by [] = some none
  max_by (x ∷ xs) = elim (fold_max x xs) [ none ↦ none | some best ↦ some (some best) ]

  -- `min_by(..)`: the first of the least.
  abbrev pub fold_min : F → List F → Option F
  fold_min best [] = some best
  fold_min best (x ∷ xs) = elim (partial_cmp best x) [
    | none ↦ none
    | some o ↦ if is_greater o then fold_min x xs else fold_min best xs
  ]

  abbrev pub min_by : List F → Option (Option F)
  min_by [] = some none
  min_by (x ∷ xs) = elim (fold_min x xs) [ none ↦ none | some best ↦ some (some best) ]
