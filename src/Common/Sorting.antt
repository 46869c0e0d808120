-- ===== src/Common/Sorting.antt =====
-- The stable sort of a list by a comparator, given as the test that one element may stand before another.
use mathlib.Core.Path.{◌≡◌}
use mathlib.Core.Bool.{Bool, true, false}
use mathlib.Core.List.{List, [], ◌∷◌, Perm}
use mathlib.Core.List.Perm
use mathlib.Core.Logic.{◌⊎◌, inl, inr}
use hr_profi_uz.Common.Tests.{if◌then◌else◌, Bool-cases}
use hr_profi_uz.Common.Lists.{All}

module _ {ℓ} {A : Type ℓ} (le : A → A → Bool) where
  -- An element goes in front of the first that it may precede.
  unfoldable pub insert_by : A → List A → List A
  insert_by a [] = a ∷ []
  insert_by a (x ∷ xs) = let rest = insert_by a xs in if le a x then a ∷ x ∷ xs else x ∷ rest

  unfoldable pub sort_by : List A → List A
  unfolding insert_by
  sort_by [] = []
  sort_by (x ∷ xs) = insert_by x (sort_by xs)

  insert_by-perm : (a : A) (xs : List A) → Perm (insert_by a xs) (a ∷ xs)
  unfolding insert_by
  insert_by-perm a [] = Perm.refl _
  insert_by-perm a (x ∷ xs) = elim (Bool-cases (le a x)) [
    | inl before ↦ rw before (Perm.refl _)
    | inr after ↦ rw after (Perm.trans (Perm.cons x (insert_by-perm a xs)) (Perm.swap a x xs))
  ]

  pub sort_by-perm : (xs : List A) → Perm (sort_by xs) xs
  unfolding sort_by
  sort_by-perm [] = Perm.refl _
  sort_by-perm (x ∷ xs) = Perm.trans (insert_by-perm x (sort_by xs)) (Perm.cons x (sort_by-perm xs))

  -- Every element may precede all those that follow it.
  abbrev pub IsSortedBy : List A → Type ℓ
  IsSortedBy [] = Unit
  IsSortedBy (x ∷ xs) = All (λ y. le x y ≡ true) xs × IsSortedBy xs

  module _ {κ} (P : A → Type κ) where
    pub insert_by-All : (a : A) (xs : List A) → P a → All P xs → All P (insert_by a xs)
    unfolding insert_by
    insert_by-All a [] h hs = (h, tt)
    insert_by-All a (x ∷ xs) h (k, ks) = elim (Bool-cases (le a x)) [
      | inl before ↦ rw before (h, (k, ks))
      | inr after ↦ rw after (k, insert_by-All a xs h ks)
    ]

    pub sort_by-All : (xs : List A) → All P xs → All P (sort_by xs)
    unfolding sort_by
    sort_by-All [] hs = tt
    sort_by-All (x ∷ xs) (h, hs) = insert_by-All x (sort_by xs) h (sort_by-All xs hs)

  module _ (total : (a b : A) → (le a b ≡ true) ⊎ (le b a ≡ true))
      (trans : (a b c : A) → le a b ≡ true → le b c ≡ true → le a c ≡ true) where
    precedes_all :
        (a x : A) (xs : List A)
        → le a x ≡ true
        → All (λ y. le x y ≡ true) xs
        → All (λ y. le a y ≡ true) xs
    precedes_all a x [] h hs = tt
    precedes_all a x (y ∷ ys) h (k, ks) = (trans a x y h k, precedes_all a x ys h ks)

    flipped : (a x : A) → le a x ≡ false → le x a ≡ true
    flipped a x h = elim (total a x) [ inl e ↦ cc | inr e ↦ e ]

    insert_by-IsSortedBy : (a : A) (xs : List A) → IsSortedBy xs → IsSortedBy (insert_by a xs)
    unfolding insert_by
    insert_by-IsSortedBy a [] hs = (tt, tt)
    insert_by-IsSortedBy a (x ∷ xs) (h, hs) = elim (Bool-cases (le a x)) [
      | inl before ↦ rw before ((before, precedes_all a x xs before h), (h, hs))
      | inr after ↦ rw after (
        insert_by-All (λ y. le x y ≡ true) a xs (flipped a x after) h,
        insert_by-IsSortedBy a xs hs,
      )
    ]

    pub sort_by-IsSortedBy : (xs : List A) → IsSortedBy (sort_by xs)
    unfolding sort_by
    sort_by-IsSortedBy [] = tt
    sort_by-IsSortedBy (x ∷ xs) = insert_by-IsSortedBy x (sort_by xs) (sort_by-IsSortedBy xs)
