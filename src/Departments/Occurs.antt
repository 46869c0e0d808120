-- ===== src/Departments/Occurs.antt =====
-- The elements of lists of departments and of rows
-- (admin-web/src/pages/app/departments/DepartmentsList.tsx).
use hr_profi_uz.Departments.Form.{Department}
use hr_profi_uz.Common.{
  sort_by, Bool, List, insert_by, ◌++◌, ◌∷◌, Bool-cases, ◌≡◌, true, [], inl, inr, filter_by,
}
use hr_profi_uz.Departments.Listing.{Row, flat_map}

-- An element at a position of a list.
pub data Occurs {ℓ} {A : Type ℓ} (x : A) : List A → Type ℓ where
  here : (xs : List A) → Occurs x (x ∷ xs)
  there : (y : A) (xs : List A) → Occurs x xs → Occurs x (y ∷ xs)

module _ {A : Type 0} where
  Occurs-append_left : {x : A} (xs ys : List A) → Occurs x xs → Occurs x (xs ++ ys)
  Occurs-append_left _ ys (here xs) = here (xs ++ ys)
  Occurs-append_left _ ys (there y xs h) = there y (xs ++ ys) (Occurs-append_left xs ys h)

  Occurs-append_right : {x : A} (xs ys : List A) → Occurs x ys → Occurs x (xs ++ ys)
  Occurs-append_right [] ys h = h
  Occurs-append_right (y ∷ xs) ys h = there y (xs ++ ys) (Occurs-append_right xs ys h)

  pub Occurs-filter_by :
      (f : A → Bool) {x : A} (xs : List A) → f x ≡ true → Occurs x xs → Occurs x (filter_by f xs)
  Occurs-filter_by f _ e (here xs) = rw e (here (filter_by f xs))
  Occurs-filter_by f _ e (there y xs h) = elim (Bool-cases (f y)) [
    | inl k ↦ rw k (there y (filter_by f xs) (Occurs-filter_by f xs e h))
    | inr k ↦ rw k (Occurs-filter_by f xs e h)
  ]

  Occurs-insert_by_self : (le : A → A → Bool) (x : A) (xs : List A) → Occurs x (insert_by le x xs)
  unfolding insert_by
  Occurs-insert_by_self le x [] = here []
  Occurs-insert_by_self le x (y ∷ ys) = elim (Bool-cases (le x y)) [
    | inl k ↦ rw k (here (y ∷ ys))
    | inr k ↦ rw k (there y (insert_by le x ys) (Occurs-insert_by_self le x ys))
  ]

  Occurs-insert_by :
      (le : A → A → Bool) (a : A) {x : A} (xs : List A) → Occurs x xs → Occurs x (insert_by le a xs)
  unfolding insert_by
  Occurs-insert_by le a {x = x} _ (here xs) = elim (Bool-cases (le a x)) [
    | inl k ↦ rw k (there a (x ∷ xs) (here xs))
    | inr k ↦ rw k (here (insert_by le a xs))
  ]
  Occurs-insert_by le a _ (there y xs h) = elim (Bool-cases (le a y)) [
    | inl k ↦ rw k (there a (y ∷ xs) (there y xs h))
    | inr k ↦ rw k (there y (insert_by le a xs) (Occurs-insert_by le a xs h))
  ]

  pub Occurs-sort_by :
      (le : A → A → Bool) {x : A} (xs : List A) → Occurs x xs → Occurs x (sort_by le xs)
  unfolding sort_by
  Occurs-sort_by le {x = x} _ (here xs) = Occurs-insert_by_self le x (sort_by le xs)
  Occurs-sort_by le _ (there y xs h) =
      Occurs-insert_by le y (sort_by le xs) (Occurs-sort_by le xs h)

pub Occurs-flat_map :
    (f : Department → List Row) {n : Department} {r : Row} (ns : List Department)
    → Occurs n ns
    → Occurs r (f n)
    → Occurs r (flat_map f ns)
Occurs-flat_map f {n = n} _ (here ns) h = Occurs-append_left (f n) (flat_map f ns) h
Occurs-flat_map f _ (there m ns k) h =
    Occurs-append_right (f m) (flat_map f ns) (Occurs-flat_map f ns k h)
