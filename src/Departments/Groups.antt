-- ===== src/Departments/Groups.antt =====
-- The groups of the list by branch (admin-web/src/pages/app/departments/DepartmentsList.tsx).
use hr_profi_uz.Common.{
  String, lookup, List, Entries, ◌++◌, [], ◌≡◌, filter_by, ◌∷◌, ◌===◌, ap, refl, sym, insert, ◌∙◌,
  lookup-insert, Bool-cases, inl, subst, eq_iff, inr,
}
use mathlib.Core.List.{append-nil, append_assoc}
use hr_profi_uz.Departments.Form.{Department}
use hr_profi_uz.Departments.Listing.{by_branch, or_nil}

by_branch_lem :
    (id : String) (ds : List Department) (m : Entries (List Department))
    → or_nil (lookup id (by_branch ds m))
      ≡ or_nil (lookup id m) ++ filter_by (λ d. d.branch_id === id) ds
unfolding by_branch
by_branch_lem id [] m = sym (append-nil (or_nil (lookup id m)))
by_branch_lem id (d ∷ ds) m =
    let kept : List Department = or_nil (lookup d.branch_id m) ++ d ∷ [] in
    by_branch_lem id ds (insert d.branch_id kept m)
    ∙ ap (λ o. or_nil o ++ filter_by (λ d. d.branch_id === id) ds)
        (lookup-insert d.branch_id id kept m)
    ∙ elim (Bool-cases (d.branch_id === id)) [
      | inl e ↦ rw e (
          subst
            (λ b.
              (or_nil (lookup d.branch_id m) ++ d ∷ []) ++ filter_by (λ d. d.branch_id === id) ds
              ≡ or_nil (lookup b m) ++ d ∷ filter_by (λ d. d.branch_id === id) ds)
            ((eq_iff d.branch_id id).0 e)
            (append_assoc (or_nil (lookup d.branch_id m)) (d ∷ [])
              (filter_by (λ d. d.branch_id === id) ds)))
      | inr e ↦ rw e refl
    ]

-- The group of a branch holds exactly the departments of the branch, in their order.
by_branch_exact :
    (id : String) (ds : List Department)
    → or_nil (lookup id (by_branch ds [])) ≡ filter_by (λ d. d.branch_id === id) ds
unfolding lookup
by_branch_exact id ds = by_branch_lem id ds []
