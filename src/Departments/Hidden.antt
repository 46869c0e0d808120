-- ===== src/Departments/Hidden.antt =====
-- Departments in a circle of parents disappear from the tree
-- (admin-web/src/pages/app/departments/DepartmentsList.tsx).
use hr_profi_uz.Departments.Picker.{member}
use hr_profi_uz.Common.{
  Bool, Option, List, String, ◌≡◌, ℕ, All, not, sort_by-All, ◌++◌, false, true, is_some, filter_by,
  ◌∷◌, suc, subst, Bool-cases, ◌≢◌, some, inl, arith, [], sym, inr, none, ◌∙◌, zero, eq_iff,
}
use hr_profi_uz.Departments.Form.{Department}
use mathlib.Core.Option.{some-injective}
use hr_profi_uz.Departments.Listing.{
  parent_in, nodes, roots, children, walk, tree_rows, is_under, Row, flat_map, row_and_below,
}

filter_by-All_both :
    (P Q : Department → Type 0) (f : Department → Bool) (xs : List Department)
    → ((x : Department) → P x → f x ≡ true → Q x)
    → All P xs
    → All Q (filter_by f xs)
filter_by-All_both P Q f [] h hs = tt
filter_by-All_both P Q f (x ∷ xs) h (p, ps) = elim (Bool-cases (f x)) [
  | inl e ↦ rw e (h x p e, filter_by-All_both P Q f xs h ps)
  | inr e ↦ rw e (filter_by-All_both P Q f xs h ps)
]

append-All : (Q : Row → Type 0) (xs ys : List Row) → All Q xs → All Q ys → All Q (xs ++ ys)
append-All Q [] ys h k = k
append-All Q (x ∷ xs) ys (h, hs) k = (h, append-All Q xs ys hs k)

flat_map-All :
    (P : Department → Type 0) (Q : Row → Type 0) (f : Department → List Row) (ns : List Department)
    → ((n : Department) → P n → All Q (f n))
    → All P ns
    → All Q (flat_map f ns)
flat_map-All P Q f [] h hs = tt
flat_map-All P Q f (n ∷ ns) h (p, ps) =
    append-All Q (f n) (flat_map f ns) (h n p) (flat_map-All P Q f ns h ps)

no_parent : (o : Option String) (p : String) → not (is_some o) ≡ true → o ≢ some p
no_parent none p h e = cc
no_parent (some q) p h e = ground (arith, h)

under_lem : (o : Option String) (id p : String) → is_under id o ≡ true → o ≡ some p → p ≡ id
under_lem none id p h e = ground (arith, h)
under_lem (some q) id p h e = sym (some-injective q p e) ∙ (eq_iff q id).0 h

module _ (name_le : String → String → Bool) (ds : List Department) (in_circle : String → Bool) where
  -- The departments of a circle have their parents in the circle.
  abbrev pub IsClosed : Department → Type 0
  IsClosed d =
      in_circle d.id ≡ true → (p : String) × (parent_in ds d ≡ some p) × (in_circle p ≡ true)

  abbrev IsOutside : Department → Type 0
  IsOutside d = in_circle d.id ≡ false

  not_in_circle : (d : Department) → (in_circle d.id ≡ true → ⊥) → IsOutside d
  not_in_circle d h = elim (Bool-cases (in_circle d.id)) [ inl e ↦ elim (h e) [ ] | inr e ↦ e ]

  roots-IsOutside : All IsClosed (nodes ds) → All IsOutside (roots name_le ds)
  unfolding roots
  roots-IsOutside hs =
      sort_by-All (λ a b. name_le a.name b.name) IsOutside _
        (filter_by-All_both IsClosed IsOutside (λ d. not (is_some (parent_in ds d))) (nodes ds)
          (λ d c t. not_in_circle d (λ e. no_parent (parent_in ds d) (c e).0 t (c e).1)) hs)

  children-IsOutside :
      (id : String)
      → in_circle id ≡ false
      → All IsClosed (nodes ds)
      → All IsOutside (children name_le ds id)
  unfolding children
  children-IsOutside id h hs =
      sort_by-All (λ a b. name_le a.name b.name) IsOutside _
        (filter_by-All_both IsClosed IsOutside (λ d. is_under id (parent_in ds d)) (nodes ds)
          (λ d c t. not_in_circle d (λ e.
            let same : (c e).0 ≡ id = under_lem (parent_in ds d) id (c e).0 t (c e).1 in
            let inside : in_circle id ≡ true = subst (λ x. in_circle x ≡ true) same (c e).2 in
            ground (arith, h, inside)))
          hs)

  row_and_below-All :
      (collapsed : List String) (depth : ℕ) (below : String → List Row) (n : Department)
      → IsOutside n
      → All (λ row. in_circle row.0.id ≡ false) (below n.id)
      → All (λ row. in_circle row.0.id ≡ false) (row_and_below collapsed depth below n)
  row_and_below-All collapsed depth below n o h = elim (Bool-cases (member n.id collapsed)) [
    | inl e ↦ rw e (o, tt)
    | inr e ↦ rw e (o, h)
  ]

  walk-IsOutside :
      (fuel depth : ℕ) (collapsed : List String) (ns : List Department)
      → All IsClosed (nodes ds)
      → All IsOutside ns
      → All (λ row. in_circle row.0.id ≡ false) (walk name_le ds collapsed fuel depth ns)
  unfolding walk
  walk-IsOutside zero depth collapsed ns hs h = tt
  walk-IsOutside (suc fuel) depth collapsed ns hs h =
      let below : String → List Row =
        λ id. walk name_le ds collapsed fuel (suc depth) (children name_le ds id) in
      flat_map-All IsOutside (λ row. in_circle row.0.id ≡ false)
        (row_and_below collapsed depth below) ns
        (λ n o. row_and_below-All collapsed depth below n o (
          walk-IsOutside fuel (suc depth) collapsed (children name_le ds n.id) hs
            (children-IsOutside n.id o hs)))
        h

  -- Whatever is collapsed, and however deep the walk goes, no department of a circle is shown, where
  -- in a circle means to have a parent in it.
  pub circle_hidden :
      (fuel : ℕ) (collapsed : List String)
      → All IsClosed (nodes ds)
      → All (λ row. in_circle row.0.id ≡ false) (tree_rows name_le fuel collapsed ds)
  unfolding tree_rows
  circle_hidden fuel collapsed hs =
      walk-IsOutside fuel 0 collapsed (roots name_le ds) hs (roots-IsOutside hs)
