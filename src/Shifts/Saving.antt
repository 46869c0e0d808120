-- ===== src/Shifts/Saving.antt =====
-- What saving the table sends, and what it shows afterwards
-- (admin-web/src/pages/app/shifts/SchedulePanel.tsx).
use hr_profi_uz.Shifts.Panel.{Panel, Cell, Edits, same_cell, edit_of, server_row, cell_value, cell}
use hr_profi_uz.Shifts.Actions.{entry_of, entries, saved, save_request}
use hr_profi_uz.Shifts.Cells.{same_cell_lem}
use hr_profi_uz.Schedule.Editor.{Entry, ShiftSchedule, shown_row, rest}
use hr_profi_uz.Common.{
  String, Option, none, some, List, [], ◌∷◌, ℕ, if◌then◌else◌, ◌≡◌, refl, arith, eq_iff, ap, inl,
  inr, Bool-cases,
}

-- The entry that is sent for a cell.
abbrev pub entry_at : Cell → List Entry → Option Entry
entry_at c [] = none
entry_at c (e ∷ es) =
    if same_cell (record { employee_id = e.employee_id; date = e.date }) c
    then some e
    else entry_at c es

abbrev entry_for : Cell → Option String → Option Entry
entry_for c none = none
entry_for c (some v) = some (entry_of c v)

entry_of-cell :
    (c : Cell) (v : String)
    → ((entry_of c v).employee_id ≡ c.employee_id) × ((entry_of c v).date ≡ c.date)
unfolding entry_of
entry_of-cell c v = ground arith

entries_lem : (c : Cell) (xs : Edits) → entry_at c (entries xs) ≡ entry_for c (edit_of c xs)
unfolding edit_of
entries_lem c [] = refl
entries_lem c ((b, v) ∷ xs) = elim (Bool-cases (same_cell b c)) [
  | inl same ↦
      ground (arith, same, entry_of-cell b v, ap (λ k. entry_of k v) (same_cell_lem b c same))
  | inr other ↦ ground (arith, other, entry_of-cell b v, entries_lem c xs)
]

save_request-some :
    (c : Cell) (v : String) (xs : Edits)
    → edit_of c xs ≡ some v
    → save_request xs ≡ some (entries xs)
unfolding edit_of save_request
save_request-some c v [] h = cc
save_request-some c v (x ∷ xs) h = refl

-- The server's row for a cell has the status and the template of the entry that was sent for it.
abbrev pub TakesOver : Cell → Entry → List ShiftSchedule → Type 0
TakesOver c entry rows =
    (row : ShiftSchedule) × (server_row c rows ≡ some row)
    × (row.status ≡ entry.status)
    × (row.shift_template_id ≡ entry.shift_template_id)

entry_of-shown_row :
    (c : Cell) (v : String)
    → let entry = entry_of c v in shown_row entry.status entry.shift_template_id ≡ v
unfolding entry_of
entry_of-shown_row c v = grind (arith, eq_iff v rest, eq_iff v "")

-- For a cell with an edit, a blank one too, saving sends the entry of the edit; when the server has taken
-- the entry over, the cell shows the same value after the save, though the edits are gone.
pub saved-cell_value :
    (p : Panel) (employee v : String) (d : ℕ) (rows : List ShiftSchedule)
    → edit_of (cell p employee d) p.edits ≡ some v
    → TakesOver (cell p employee d) (entry_of (cell p employee d) v) rows
    → (save_request p.edits ≡ some (entries p.edits))
      × (entry_at (cell p employee d) (entries p.edits) ≡ some (entry_of (cell p employee d) v))
      × (cell_value (saved rows p) employee d ≡ cell_value p employee d)
unfolding saved cell_value edit_of
saved-cell_value p employee v d rows edited (row, at, status, template) =
    let key = cell p employee d in
    (
      save_request-some key v p.edits edited,
      ground (arith, edited, entries_lem key p.edits),
      ground (arith, edited, at, status, template, entry_of-shown_row key v),
    )
