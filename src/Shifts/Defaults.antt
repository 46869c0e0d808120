-- ===== src/Shifts/Defaults.antt =====
-- `applyDefaultRow` (admin-web/src/pages/app/shifts/SchedulePanel.tsx).
use hr_profi_uz.Staff.{Employee}
use hr_profi_uz.Shifts.Panel.{
  cell_value, Cell, Panel, Edits, edit_of, same_cell, value_or, days, cell,
}
use hr_profi_uz.Shifts.Actions.{
  apply_default_row, fill_row, template_of, keep_or_write, default_value,
}
use hr_profi_uz.Common.{
  ℕ, String, List, ◌≡◌, find_by, if◌then◌else◌, some, ◌===◌, ◌≤◌, Bool-cases, inl, arith, suc, ap,
  ◌+◌, inr, zero,
}
use hr_profi_uz.Schedule.Editor.{Date}
use hr_profi_uz.Shifts.Cells.{in_row, in_row_head, in_row_tail, edit_of-write, same_cell_lem}

module _ (weekday : Date → ℕ) where
  keep_or_write_lem :
      (key c : Cell) (v : String) (xs : Edits)
      → edit_of c (keep_or_write (edit_of key xs) key v xs)
        ≡ (if same_cell key c then some (value_or (edit_of c xs) v) else edit_of c xs)
  keep_or_write_lem key c v xs = elim (Bool-cases (same_cell key c)) [
    | inl same ↦
        let at = ap (λ k. edit_of k xs) (same_cell_lem key c same) in
        ground (arith, same, at, edit_of-write key c v xs)
    | inr other ↦ ground (arith, other, edit_of-write key c v xs)
  ]

  fill_row_lem :
      (p : Panel) (employee tpl : String) (n d : ℕ) (c : Cell) (xs : Edits)
      → edit_of c (fill_row weekday p employee tpl n d xs) ≡ (
          if in_row p employee d n c
          then some (value_or (edit_of c xs) (default_value weekday p.templates tpl c.date))
          else edit_of c xs)
  unfolding fill_row
  fill_row_lem p employee tpl zero d c xs = ground arith
  fill_row_lem p employee tpl (suc n) d c xs =
      let key = cell p employee d in
      let v = default_value weekday p.templates tpl key.date in
      let step = keep_or_write_lem key c v xs in
      let rest =
        fill_row_lem p employee tpl n (d + 1) c (keep_or_write (edit_of key xs) key v xs) in
      elim (Bool-cases (same_cell key c)) [
        | inl same ↦
            let on =
              ap (λ (k : Cell). default_value weekday p.templates tpl k.date)
                (same_cell_lem key c same) in
            ground (arith, same, step, rest, on, in_row_head p employee d n c same)
        | inr other ↦ ground (arith, other, step, rest, in_row_tail p employee d n c other)
      ]

  -- For an employee with a default template, the action makes each cell of the row show the edit that it
  -- had, and without one the template on the working days and rest on the others. The cells of the other
  -- employees stay as they are.
  apply_default_row-cell_value :
      (shown : List Employee) (employee tpl other : String) (p : Panel) (e : ℕ)
      → template_of (find_by (λ x. x.id === employee) shown) ≡ some tpl
      → 1 ≤ e
      → e ≤ days p
      → cell_value (apply_default_row weekday shown employee p) other e ≡ (
          let c = cell p other e in
          if other === employee
          then value_or (edit_of c p.edits) (default_value weekday p.templates tpl c.date)
          else cell_value p other e)
  unfolding apply_default_row cell_value
  apply_default_row-cell_value shown employee tpl other p e h one last =
      ground (arith, h, fill_row_lem p employee tpl (days p) 1 (cell p other e) p.edits)
