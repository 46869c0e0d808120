-- ===== src/Departments/Rows.antt =====
-- Which departments the tree shows (admin-web/src/pages/app/departments/DepartmentsList.tsx).
use hr_profi_uz.Departments.Picker.{member}
use hr_profi_uz.Departments.Form.{Department}
use hr_profi_uz.Common.{
  String, List, Bool, ℕ, ◌≡◌, some, none, [], suc, not, arith, eq_iff, is_some, refl, ◌<◌, ◌+◌, ◌-◌,
  subst,
}
use hr_profi_uz.Departments.Listing.{
  parent_in, nodes, roots, children, walk, is_under, Row, tree_rows, row_and_below,
}
use hr_profi_uz.Departments.Occurs.{
  Occurs, Occurs-sort_by, Occurs-filter_by, Occurs-flat_map, there, here,
}

-- The way up from a department to a root, in so many steps.
pub data Chain (ds : List Department) : ℕ → Department → Type 0 where
  root : (d : Department) → Occurs d (nodes ds) → parent_in ds d ≡ none → Chain ds 0 d
  child :
      (n : ℕ) (e d : Department)
      → Chain ds n e
      → Occurs d (nodes ds)
      → parent_in ds d ≡ some e.id
      → Chain ds (suc n) d

levels : (k fuel : ℕ) → k < fuel → suc (fuel - suc k) + k ≡ fuel
levels k fuel h = omega arith

module _ (name_le : String → String → Bool) (ds : List Department) where
  roots-Occurs :
      (d : Department) → Occurs d (nodes ds) → parent_in ds d ≡ none → Occurs d (roots name_le ds)
  unfolding roots
  roots-Occurs d h e =
      Occurs-sort_by (λ a b. name_le a.name b.name) _
        (Occurs-filter_by (λ d. not (is_some (parent_in ds d))) (nodes ds) (rw e refl) h)

  children-Occurs :
      (d : Department) (id : String)
      → Occurs d (nodes ds)
      → parent_in ds d ≡ some id
      → Occurs d (children name_le ds id)
  unfolding children
  children-Occurs d id h e =
      Occurs-sort_by (λ a b. name_le a.name b.name) _
        (Occurs-filter_by (λ d. is_under id (parent_in ds d)) (nodes ds)
          (rw e (ground (arith, eq_iff id id))) h)

  -- What is below a department of a list is shown when the walk goes deep enough.
  walk-Occurs :
      (fuel depth : ℕ) (ns : List Department) (e : Department) (r : Row)
      → Occurs e ns
      → Occurs r (walk name_le ds [] fuel (suc depth) (children name_le ds e.id))
      → Occurs r (walk name_le ds [] (suc fuel) depth ns)
  unfolding walk member
  walk-Occurs fuel depth ns e r h k =
      let below : String → List Row =
        λ id. walk name_le ds [] fuel (suc depth) (children name_le ds id) in
      Occurs-flat_map (row_and_below [] depth below) ns h (there (e, depth) (below e.id) k)

  walk-Occurs_self :
      (fuel depth : ℕ) (ns : List Department) (e : Department)
      → Occurs e ns
      → Occurs (e, depth) (walk name_le ds [] (suc fuel) depth ns)
  unfolding walk member
  walk-Occurs_self fuel depth ns e h =
      let below : String → List Row =
        λ id. walk name_le ds [] fuel (suc depth) (children name_le ds id) in
      Occurs-flat_map (row_and_below [] depth below) ns h (here (below e.id))

  at_level :
      (r : Row) (f g : ℕ)
      → f ≡ g
      → Occurs r (walk name_le ds [] f 0 (roots name_le ds))
      → Occurs r (walk name_le ds [] g 0 (roots name_le ds))
  at_level r f g e o = subst (λ x. Occurs r (walk name_le ds [] x 0 (roots name_le ds))) e o

  below_shown :
      (k : ℕ) (d : Department) (m : ℕ) (r : Row)
      → Chain ds k d
      → Occurs r (walk name_le ds [] m (suc k) (children name_le ds d.id))
      → Occurs r (walk name_le ds [] (suc m + k) 0 (roots name_le ds))
  below_shown _ _ m r (root d h e) o =
      at_level r (suc m) (suc m + 0) (omega arith)
        (walk-Occurs m 0 (roots name_le ds) d r (roots-Occurs d h e) o)
  below_shown _ _ m r (child n e d c h p) o =
      at_level r (suc (suc m) + n) (suc m + suc n) (omega arith) (
        below_shown n e (suc m) r c
          (walk-Occurs m (suc n) (children name_le ds e.id) d r (children-Occurs d e.id h p) o))

  row_shown :
      (k : ℕ) (d : Department) (m : ℕ)
      → Chain ds k d
      → Occurs (d, k) (walk name_le ds [] (suc m + k) 0 (roots name_le ds))
  row_shown _ _ m (root d h e) =
      at_level (d, 0) (suc m) (suc m + 0) (omega arith)
        (walk-Occurs_self m 0 (roots name_le ds) d (roots-Occurs d h e))
  row_shown _ _ m (child n e d c h p) =
      at_level (d, suc n) (suc (suc m) + n) (suc m + suc n) (omega arith)
        (below_shown n e (suc m) (d, suc n) c
          (walk-Occurs_self m (suc n) (children name_le ds e.id) d (children-Occurs d e.id h p)))

  -- While nothing is collapsed, a department whose way up to a root has k steps is shown, indented k
  -- times, by every walk of more than k levels.
  pub department_shown :
      (k fuel : ℕ) (d : Department)
      → Chain ds k d
      → k < fuel
      → Occurs (d, k) (tree_rows name_le fuel [] ds)
  unfolding tree_rows
  department_shown k fuel d c h =
      at_level (d, k) (suc (fuel - suc k) + k) fuel (levels k fuel h)
        (row_shown k d (fuel - suc k) c)
