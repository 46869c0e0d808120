-- ===== src/Shifts/Clearing.antt =====
-- `clearRow` and `fillColumn` (admin-web/src/pages/app/shifts/SchedulePanel.tsx).
use hr_profi_uz.Shifts.Panel.{
  Panel, Cell, Edits, edit_of, write, erase, cell, cell_value, days, same_cell,
}
use hr_profi_uz.Shifts.Actions.{
  blank_row, erase_row, clear_start, clear_end, fill_cells, fill_column,
}
use hr_profi_uz.Shifts.Cells.{in_row, in_row_head, in_row_tail, edit_of-write, edit_of-erase}
use hr_profi_uz.Schedule.Editor.{ShiftSchedule}
use hr_profi_uz.Staff.{Employee}
use hr_profi_uz.Common.{
  String, Option, none, some, Bool, List, [], ◌∷◌, ℕ, zero, suc, ◌+◌, ◌===◌, ◌==◌, ◌&&◌,
  if◌then◌else◌, ◌≡◌, arith, inl, inr, Bool-cases, any,
}

blank_row_lem :
    (p : Panel) (employee : String) (n d : ℕ) (c : Cell) (xs : Edits)
    → edit_of c (blank_row p employee n d xs)
      ≡ (if in_row p employee d n c then some "" else edit_of c xs)
unfolding blank_row
blank_row_lem p employee zero d c xs = ground arith
blank_row_lem p employee (suc n) d c xs =
    let key = cell p employee d in
    let step = edit_of-write key c "" xs in
    let rest = blank_row_lem p employee n (d + 1) c (write key "" xs) in
    elim (Bool-cases (same_cell key c)) [
      | inl same ↦ ground (arith, same, step, rest, in_row_head p employee d n c same)
      | inr other ↦ ground (arith, other, step, rest, in_row_tail p employee d n c other)
    ]

erase_row_lem :
    (p : Panel) (employee : String) (n d : ℕ) (c : Cell) (xs : Edits)
    → edit_of c (erase_row p employee n d xs)
      ≡ (if in_row p employee d n c then none else edit_of c xs)
unfolding erase_row
erase_row_lem p employee zero d c xs = ground arith
erase_row_lem p employee (suc n) d c xs =
    let key = cell p employee d in
    let step = edit_of-erase key c xs in
    let rest = erase_row_lem p employee n (d + 1) c (erase key xs) in
    elim (Bool-cases (same_cell key c)) [
      | inl same ↦ ground (arith, same, step, rest, in_row_head p employee d n c same)
      | inr other ↦ ground (arith, other, step, rest, in_row_tail p employee d n c other)
    ]

-- The edit that a cell has after `clearRow`.
abbrev pub edit_after_clear : Option (List ShiftSchedule) → Option String
edit_after_clear none = some ""
edit_after_clear (some rows) = none

-- When the row of an employee is cleared and nothing else happens meanwhile, the cells of the row are left
-- blank by an edit if the request failed, and without any edit if it came through; every other cell keeps
-- its edit. Whatever else happened meanwhile, a request that came through drops the edits of the row.
pub clear_row_edits :
    (clicked later : Panel) (employee : String) (reload : Option (List ShiftSchedule))
    (rows : List ShiftSchedule) (c : Cell)
    → let row = in_row clicked employee 1 (days clicked) c in
      (edit_of c (clear_end clicked employee reload (clear_start employee clicked)).edits
        ≡ (if row then edit_after_clear reload else edit_of c clicked.edits))
      × (edit_of c (clear_end clicked employee (some rows) later).edits
          ≡ (if row then none else edit_of c later.edits))
unfolding clear_start clear_end
clear_row_edits clicked later employee none rows c = (
  blank_row_lem clicked employee (days clicked) 1 c clicked.edits,
  erase_row_lem clicked employee (days clicked) 1 c later.edits,
)
clear_row_edits clicked later employee (some new) rows c = (
  ground (
    arith,
    blank_row_lem clicked employee (days clicked) 1 c clicked.edits,
    erase_row_lem clicked employee (days clicked) 1 c
        (blank_row clicked employee (days clicked) 1 clicked.edits),
  ),
  erase_row_lem clicked employee (days clicked) 1 c later.edits,
)

-- Whether the id is one of the employees'.
abbrev pub among : String → List Employee → Bool
among id es = any (λ e. e.id === id) es

fill_cells_lem :
    (p : Panel) (day : ℕ) (value other : String) (e : ℕ) (es : List Employee) (xs : Edits)
    → edit_of (cell p other e) (fill_cells p day value es xs)
      ≡ (if day == e && among other es then some value else edit_of (cell p other e) xs)
fill_cells_lem p day value other e [] xs = ground arith
fill_cells_lem p day value other e (x ∷ es) xs =
    let key = cell p x.id day in
    ground (
      arith,
      fill_cells_lem p day value other e es (write key value xs),
      edit_of-write key (cell p other e) value xs,
    )

-- Filling a column makes the day show the value for each employee of the table, and leaves every other cell
-- of the month as it was.
fill_column-cell_value :
    (shown : List Employee) (day : ℕ) (value other : String) (e : ℕ) (p : Panel)
    → cell_value (fill_column shown day value p) other e
      ≡ (if day == e && among other shown then value else cell_value p other e)
unfolding fill_column cell_value
fill_column-cell_value shown day value other e p =
    ground (arith, fill_cells_lem p day value other e shown p.edits)
