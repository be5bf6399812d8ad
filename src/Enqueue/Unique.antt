-- ===== src/Enqueue/Unique.antt =====
-- The groups of a chunk, each of them once: `unique` and `contains` of
-- server/src/operators/chunk_operator.rs.
use trieve.Prelude.{
  ◌≡◌, inl, inr, refl, sym, ◌∙◌, true, false, not, List, [], ◌∷◌, ◌++◌, ◌==◌, ==→eq, eq→==, retain,
  Bool-cases,
}
use trieve.Models.{Uuid}
use trieve.Enqueue.{contains, unique}

true-ne-false : true ≡ false → ⊥
true-ne-false h = cc

-- Every element of the first list is one of the second.
abbrev pub AllIn : List Uuid → List Uuid → Type 0
AllIn [] ys = Unit {0}
AllIn (x ∷ xs) ys = (contains ys x ≡ true) × AllIn xs ys

-- No two elements are equal.
abbrev pub Distinct : List Uuid → Type 0
Distinct [] = Unit {0}
Distinct (x ∷ xs) = (contains xs x ≡ false) × Distinct xs

same-same : (x y z : Uuid) → (z == x) ≡ true → (z == y) ≡ true → (y == x) ≡ true
same-same x y z p q = eq→== y x (sym (==→eq z y q) ∙ ==→eq z x p)

contains-retain :
    (x y : Uuid) (xs : List Uuid)
    → contains xs y ≡ true
    → (y == x) ≡ false
    → contains (retain (λ z. not (z == x)) xs) y ≡ true
contains-retain x y [] h ne = h
contains-retain x y (z ∷ zs) h ne = elim (Bool-cases (z == x)) [
  | inl t ↦ elim (Bool-cases (z == y)) [
    | inl s ↦ absurd (true-ne-false (sym (same-same x y z t s) ∙ ne))
    | inr s ↦ rw t (contains-retain x y zs (rw s at h) ne)
  ]
  | inr t ↦ elim (Bool-cases (z == y)) [
    | inl s ↦ rw (t, s) refl
    | inr s ↦ rw (t, s) (contains-retain x y zs (rw s at h) ne)
  ]
]

retain_removes : (x : Uuid) (xs : List Uuid) → contains (retain (λ z. not (z == x)) xs) x ≡ false
retain_removes x [] = refl
retain_removes x (z ∷ zs) = elim (Bool-cases (z == x)) [
  | inl t ↦ rw t (retain_removes x zs)
  | inr t ↦ rw (t, t) (retain_removes x zs)
]

absent-retain :
    (x y : Uuid) (xs : List Uuid)
    → contains xs y ≡ false
    → contains (retain (λ z. not (z == x)) xs) y ≡ false
absent-retain x y [] h = refl
absent-retain x y (z ∷ zs) h = elim (Bool-cases (z == y)) [
  | inl s ↦ absurd (true-ne-false (rw s at h))
  | inr s ↦ elim (Bool-cases (z == x)) [
    | inl t ↦ rw t (absent-retain x y zs (rw s at h))
    | inr t ↦ rw (t, s) (absent-retain x y zs (rw s at h))
  ]
]

Distinct-retain :
    (x : Uuid) (xs : List Uuid) → Distinct xs → Distinct (retain (λ z. not (z == x)) xs)
Distinct-retain x [] h = tt
Distinct-retain x (z ∷ zs) (a, h) = elim (Bool-cases (z == x)) [
  | inl t ↦ rw t (Distinct-retain x zs h)
  | inr t ↦ rw t (absent-retain x z zs a, Distinct-retain x zs h)
]

pub unique-Distinct : (xs : List Uuid) → Distinct (unique xs)
unique-Distinct [] = tt
unique-Distinct (x ∷ xs) =
    (retain_removes x (unique xs), Distinct-retain x (unique xs) (unique-Distinct xs))

pub unique-contains :
    (xs : List Uuid) (y : Uuid) → contains xs y ≡ true → contains (unique xs) y ≡ true
unique-contains [] y h = h
unique-contains (x ∷ xs) y h = elim (Bool-cases (x == y)) [
  | inl s ↦ rw s refl
  | inr s ↦ elim (Bool-cases (y == x)) [
    | inl t ↦ absurd (true-ne-false (sym (eq→== x y (sym (==→eq y x t))) ∙ s))
    | inr t ↦ rw s (contains-retain x y (unique xs) (unique-contains xs y (rw s at h)) t)
  ]
]

retain-contains :
    (x y : Uuid) (xs : List Uuid)
    → contains (retain (λ z. not (z == x)) xs) y ≡ true
    → contains xs y ≡ true
retain-contains x y [] h = h
retain-contains x y (z ∷ zs) h = elim (Bool-cases (z == y)) [
  | inl s ↦ rw s refl
  | inr s ↦ elim (Bool-cases (z == x)) [
    | inl t ↦ rw s (retain-contains x y zs (rw t at h))
    | inr t ↦ rw s (retain-contains x y zs (rw (t, s) at h))
  ]
]

pub contains-unique :
    (xs : List Uuid) (y : Uuid) → contains (unique xs) y ≡ true → contains xs y ≡ true
contains-unique [] y h = h
contains-unique (x ∷ xs) y h = elim (Bool-cases (x == y)) [
  | inl s ↦ rw s refl
  | inr s ↦ rw s (contains-unique xs y (retain-contains x y (unique xs) (rw s at h)))
]

pub contains-append :
    (xs ys : List Uuid) (y : Uuid) → contains ys y ≡ true → contains (xs ++ ys) y ≡ true
contains-append [] ys y h = h
contains-append (x ∷ xs) ys y h = elim (Bool-cases (x == y)) [
  | inl s ↦ rw s refl
  | inr s ↦ rw s (contains-append xs ys y h)
]

pub append-contains :
    (xs ys : List Uuid) (y : Uuid) → contains xs y ≡ true → contains (xs ++ ys) y ≡ true
append-contains [] ys y h = absurd (true-ne-false (sym h))
append-contains (x ∷ xs) ys y h = elim (Bool-cases (x == y)) [
  | inl s ↦ rw s refl
  | inr s ↦ rw s (append-contains xs ys y (rw s at h))
]

contains-cons : (x y : Uuid) (xs : List Uuid) → contains xs y ≡ true → contains (x ∷ xs) y ≡ true
contains-cons x y xs h = contains-append (x ∷ []) xs y h

pub all_in :
    (xs ys : List Uuid) → ((y : Uuid) → contains xs y ≡ true → contains ys y ≡ true) → AllIn xs ys
all_in [] ys f = tt
all_in (x ∷ xs) ys f =
    (f x (rw (eq→== x x refl) refl), all_in xs ys (λ y h. f y (contains-cons x y xs h)))
