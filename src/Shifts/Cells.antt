-- ===== src/Shifts/Cells.antt =====
-- Writing and erasing single cells of the grid (admin-web/src/pages/app/shifts/SchedulePanel.tsx).
use hr_profi_uz.Common.{
  String, none, some, Bool, true, false, [], ◌∷◌, ℕ, suc, ◌+◌, ◌===◌, ◌==◌, ◌&&◌, if◌then◌else◌,
  ◌≡◌, refl, arith, eq_iff, ap, sym, subst, ◌∙◌, inl, inr, Bool-cases, leb, ltb,
}
use hr_profi_uz.Schedule.Editor.{Date, same_date}
use hr_profi_uz.Shifts.Panel.{Panel, Cell, Edits, same_cell, edit_of, write, erase, cell}

same_date_lem : (a b : Date) → same_date a b ≡ true → a ≡ b
same_date_lem a b h = ground arith

pub same_cell_lem : (a b : Cell) → same_cell a b ≡ true → a ≡ b
same_cell_lem a b h = ground (
  arith,
  (eq_iff a.employee_id b.employee_id).0 (ground (arith, h)),
  same_date_lem a.date b.date (ground (arith, h)),
)

same_cell_refl : (a : Cell) → same_cell a a ≡ true
same_cell_refl a = ground (arith, eq_iff a.employee_id a.employee_id)

-- What is not `c` and is `e` makes `c` and `e` two cells.
apart : (b c e : Cell) → same_cell b c ≡ false → same_cell b e ≡ true → same_cell c e ≡ false
apart b c e other at = elim (Bool-cases (same_cell c e)) [
  | inl same ↦
      let back = same_cell_lem b e at ∙ sym (same_cell_lem c e same) in
      let clash : same_cell b c ≡ true =
        subst (λ k. same_cell b k ≡ true) back (same_cell_refl b) in
      cc
  | inr differ ↦ differ
]

pub edit_of-write :
    (c e : Cell) (v : String) (xs : Edits)
    → edit_of e (write c v xs) ≡ (if same_cell c e then some v else edit_of e xs)
unfolding edit_of write
edit_of-write c e v [] = refl
edit_of-write c e v ((b, w) ∷ xs) = elim (Bool-cases (same_cell b c)) [
  | inl same ↦ ground (arith, same, ap (λ k. same_cell k e) (same_cell_lem b c same))
  | inr other ↦ elim (Bool-cases (same_cell b e)) [
    | inl at ↦ ground (arith, other, at, apart b c e other at)
    | inr past ↦ ground (arith, other, past, edit_of-write c e v xs)
  ]
]

pub edit_of-erase :
    (c e : Cell) (xs : Edits)
    → edit_of e (erase c xs) ≡ (if same_cell c e then none else edit_of e xs)
unfolding edit_of erase
edit_of-erase c e [] = ground arith
edit_of-erase c e ((b, w) ∷ xs) = elim (Bool-cases (same_cell b c)) [
  | inl same ↦
      let there = ap (λ k. same_cell k e) (same_cell_lem b c same) in
      ground (arith, same, there, edit_of-erase c e xs)
  | inr other ↦ elim (Bool-cases (same_cell b e)) [
    | inl at ↦ ground (arith, other, at, apart b c e other at)
    | inr past ↦ ground (arith, other, past, edit_of-erase c e xs)
  ]
]

-- The cell stands in the row of the employee, on one of `n` days from `d` on.
abbrev pub in_row : Panel → String → ℕ → ℕ → Cell → Bool
in_row p employee d n c =
    c.employee_id === employee
    && (c.date.year == p.year
        && (c.date.month == p.month && (leb d c.date.day && ltb c.date.day (d + n))))

pub in_row_head :
    (p : Panel) (employee : String) (d n : ℕ) (c : Cell)
    → same_cell (cell p employee d) c ≡ true
    → (in_row p employee d (suc n) c ≡ true) × (in_row p employee (d + 1) n c ≡ false)
in_row_head p employee d n c h =
    let at = same_cell_lem (cell p employee d) c h in
    let named : (c.employee_id === employee) ≡ true =
      (eq_iff c.employee_id employee).1 (sym (ap Cell.employee_id at)) in
    ground (arith, h, named)

pub in_row_tail :
    (p : Panel) (employee : String) (d n : ℕ) (c : Cell)
    → same_cell (cell p employee d) c ≡ false
    → in_row p employee d (suc n) c ≡ in_row p employee (d + 1) n c
in_row_tail p employee d n c h =
    ground (arith, h, eq_iff c.employee_id employee, eq_iff employee c.employee_id)
