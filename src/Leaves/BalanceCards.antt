-- ===== src/Leaves/BalanceCards.antt =====
-- The cards of the employees (admin-web/src/pages/app/leaves/BalancesTab.tsx).
use hr_profi_uz.Common.{
  String, Option, lookup, List, some, ◌≡◌, [], Entries, none, filter_by, ◌++◌, ◌===◌, ◌∷◌, sym,
  refl, insert, ◌∙◌, ap, lookup-insert, Bool-cases, inl, eq_iff, inr,
}
use mathlib.Core.List.{append-nil, append_assoc}
use hr_profi_uz.Leaves.Balances.{LeaveBalanceRow, Group, by_employee, with_row}

abbrev rows_of : Option Group → List LeaveBalanceRow
rows_of none = []
rows_of (some g) = g.rows

rows_of-with_row :
    (r : LeaveBalanceRow) (o : Option Group) → rows_of (some (with_row r o)) ≡ rows_of o ++ r ∷ []
rows_of-with_row r none = refl
rows_of-with_row r (some g) = refl

by_employee_lem :
    (id : String) (rows : List LeaveBalanceRow) (m : Entries Group)
    → rows_of (lookup id (by_employee rows m))
      ≡ rows_of (lookup id m) ++ filter_by (λ r. r.employee_id === id) rows
unfolding by_employee
by_employee_lem id [] m = sym (append-nil (rows_of (lookup id m)))
by_employee_lem id (r ∷ rs) m =
    let rest : List LeaveBalanceRow = filter_by (λ r. r.employee_id === id) rs in
    let card : Group = with_row r (lookup r.employee_id m) in
    by_employee_lem id rs (insert r.employee_id card m)
    ∙ ap (λ o. rows_of o ++ rest) (lookup-insert r.employee_id id card m)
    ∙ elim (Bool-cases (r.employee_id === id)) [
      | inl e ↦ rw e (
          ap (λ xs. xs ++ rest) (rows_of-with_row r (lookup r.employee_id m))
          ∙ append_assoc (rows_of (lookup r.employee_id m)) (r ∷ []) rest
          ∙ ap (λ k. rows_of (lookup k m) ++ r ∷ rest) ((eq_iff r.employee_id id).0 e))
      | inr e ↦ rw e refl
    ]

-- The card of an employee holds exactly the employee's rows, in their order.
by_employee_exact :
    (id : String) (rows : List LeaveBalanceRow)
    → rows_of (lookup id (by_employee rows [])) ≡ filter_by (λ r. r.employee_id === id) rows
unfolding lookup
by_employee_exact id rows = by_employee_lem id rows []
