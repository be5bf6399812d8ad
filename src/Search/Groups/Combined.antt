-- ===== src/Search/Groups/Combined.antt =====
-- Which groups the hybrid search over groups of server/src/operators/search_operator.rs combines.
use trieve.Prelude.{
  ◌≡◌, refl, sym, subst, ap, ◌∙◌, inl, inr, Bool, true, false, not, ◌||◌, ◌==◌, List, [], ◌∷◌, any,
  retain, Bool-cases, ==→eq,
}
use trieve.Models.{Uuid}
use trieve.Search.Groups.{
  GroupSearchResults, interleave, same_group, unique_groups, combined_results,
}

or_swap : (a b c d : Bool) → (a || (b || (c || d))) ≡ ((a || c) || (b || d))
or_swap true b c d = refl
or_swap false true true d = refl
or_swap false true false d = refl
or_swap false false true d = refl
or_swap false false false d = refl

module _ {F : Type 0} where
  -- Whether a group is among the results.
  abbrev pub has_group : Uuid → List (GroupSearchResults F) → Bool
  has_group id groups = any (λ g. g.group_id == id) groups

  -- No two results are of the same group.
  abbrev pub AllDistinct : List (GroupSearchResults F) → Type 0
  AllDistinct [] = Unit
  AllDistinct (g ∷ gs) = (has_group g.group_id gs ≡ false) × AllDistinct gs

  -- The first results of the one search, as many as the other has.
  abbrev pub common :
      List (GroupSearchResults F) → List (GroupSearchResults F) → List (GroupSearchResults F)
  common (group ∷ groups) (other ∷ others) = group ∷ common groups others
  common _ _ = []

  lacks-retain_same :
      (g : GroupSearchResults F) (gs : List (GroupSearchResults F))
      → has_group g.group_id (retain (λ other. not (same_group g other)) gs) ≡ false
  lacks-retain_same g [] = refl
  lacks-retain_same g (h ∷ gs) = elim (Bool-cases (h.group_id == g.group_id)) [
    | inl a ↦ rw (a) (lacks-retain_same g gs)
    | inr a ↦ rw (a, a) (lacks-retain_same g gs)
  ]

  lacks-retain :
      (p : GroupSearchResults F → Bool) (id : Uuid) (gs : List (GroupSearchResults F))
      → has_group id gs ≡ false
      → has_group id (retain p gs) ≡ false
  lacks-retain p id [] h = refl
  lacks-retain p id (g ∷ gs) h = elim (Bool-cases (g.group_id == id)) [
    | inl a ↦ (let bad = rw (a) at h in cc)
    | inr a ↦ elim (Bool-cases (p g)) [
      | inl b ↦ rw (b, a) (lacks-retain p id gs (rw (a) at h))
      | inr b ↦ rw (b) (lacks-retain p id gs (rw (a) at h))
    ]
  ]

  AllDistinct-retain :
      (p : GroupSearchResults F → Bool) (gs : List (GroupSearchResults F))
      → AllDistinct gs
      → AllDistinct (retain p gs)
  AllDistinct-retain p [] h = h
  AllDistinct-retain p (g ∷ gs) (a, h) = elim (Bool-cases (p g)) [
    | inl b ↦ rw (b) (lacks-retain p g.group_id gs a, AllDistinct-retain p gs h)
    | inr b ↦ rw (b) (AllDistinct-retain p gs h)
  ]

  unique_groups-AllDistinct : (gs : List (GroupSearchResults F)) → AllDistinct (unique_groups gs)
  unfolding unique_groups
  unique_groups-AllDistinct [] = tt
  unique_groups-AllDistinct (g ∷ gs) = (
    lacks-retain_same g (unique_groups gs),
    AllDistinct-retain _ (unique_groups gs) (unique_groups-AllDistinct gs),
  )

  -- A group that is not g stays when the results of g are left out.
  has-retain_other :
      (g : GroupSearchResults F) (id : Uuid) (gs : List (GroupSearchResults F))
      → (g.group_id == id) ≡ false
      → has_group id (retain (λ other. not (same_group g other)) gs) ≡ has_group id gs
  has-retain_other g id [] h = refl
  has-retain_other g id (x ∷ gs) h = elim (Bool-cases (x.group_id == g.group_id)) [
    | inl a ↦
        (let e : (x.group_id == id) ≡ false =
            subst (λ z. (z == id) ≡ false) (sym (==→eq x.group_id g.group_id a)) h in
          rw (a, e) (has-retain_other g id gs h))
    | inr a ↦ rw (a) (ap (λ b. (x.group_id == id) || b) (has-retain_other g id gs h))
  ]

  has-unique_groups :
      (id : Uuid) (gs : List (GroupSearchResults F))
      → has_group id (unique_groups gs) ≡ has_group id gs
  unfolding unique_groups
  has-unique_groups id [] = refl
  has-unique_groups id (g ∷ gs) = elim (Bool-cases (g.group_id == id)) [
    | inl a ↦ rw (a) refl
    | inr a ↦ rw (a) (has-retain_other g id (unique_groups gs) a ∙ has-unique_groups id gs)
  ]

  has-interleave :
      (id : Uuid) (xs ys : List (GroupSearchResults F))
      → has_group id (interleave xs ys)
        ≡ (has_group id (common xs ys) || has_group id (common ys xs))
  has-interleave id [] [] = refl
  has-interleave id [] (y ∷ ys) = refl
  has-interleave id (x ∷ xs) [] = refl
  has-interleave id (x ∷ xs) (y ∷ ys) =
      ap (λ b. (x.group_id == id) || ((y.group_id == id) || b)) (has-interleave id xs ys)
      ∙ or_swap (x.group_id == id) (y.group_id == id) (has_group id (common xs ys))
          (has_group id (common ys xs))

  -- A hybrid search over groups combines no group twice, and it combines the groups that are among the
  -- first ones of the semantic or of the full-text search, as many of each as the other search has.
  pub combined_results-AllDistinct :
      (semantic full_text : List (GroupSearchResults F)) (id : Uuid)
      → AllDistinct (combined_results semantic full_text)
        × (has_group id (combined_results semantic full_text) ≡ (
            has_group id (common semantic full_text) || has_group id (common full_text semantic)))
  unfolding combined_results
  combined_results-AllDistinct semantic full_text id = (
    unique_groups-AllDistinct (interleave semantic full_text),
    has-unique_groups id (interleave semantic full_text) ∙ has-interleave id semantic full_text,
  )
