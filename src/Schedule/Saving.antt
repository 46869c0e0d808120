-- ===== src/Schedule/Saving.antt =====
-- What saving sends, and what the grid shows afterwards
-- (admin-web/src/pages/app/employees/MonthlyScheduleEditor.tsx).
use hr_profi_uz.Schedule.Cells.{edit_at-put_edit}
use hr_profi_uz.Schedule.Editor.{
  Date, Entry, same_date, edit_at, entry_of, entries, ShiftSchedule, saved, server_at, cell_value,
  Editor, set_cell, date_of, shown, shown_row, put_edit, rest,
}
use hr_profi_uz.Common.{
  List, String, Option, some, none, ◌∷◌, if◌then◌else◌, is_blank, [], ◌≡◌, refl, arith, true, ℕ,
  eq_iff,
}

-- The entry that is sent for a date.
abbrev pub entry_at : Date → List Entry → Option Entry
entry_at d [] = none
entry_at d (e ∷ es) = if same_date e.date d then some e else entry_at d es

-- The dates of the edits are all different, as the keys of an object are.
abbrev pub HasKeys : List (Date × String) → Type 0
HasKeys [] = Unit
HasKeys ((d, v) ∷ xs) = (edit_at d xs ≡ none) × HasKeys xs

-- What is sent for an edit.
abbrev pub sent_for : String → Date → Option String → Option Entry
sent_for employee d none = none
sent_for employee d (some v) = if is_blank v then none else some (entry_of employee d v)

edit_at-same_date :
    (d e : Date) (xs : List (Date × String)) → same_date e d ≡ true → edit_at d xs ≡ edit_at e xs
unfolding edit_at
edit_at-same_date d e [] same = refl
edit_at-same_date d e ((f, w) ∷ xs) same = ground (arith, same, edit_at-same_date d e xs same)

module _ (employee : String) where
  -- Saving sends one entry for every date with an edit that is not blank, and nothing for another date.
  pub entries_lem :
      (d : Date) (xs : List (Date × String))
      → HasKeys xs
      → entry_at d (entries employee xs) ≡ sent_for employee d (edit_at d xs)
  unfolding entries entry_of edit_at
  entries_lem d [] keys = refl
  entries_lem d ((e, v) ∷ xs) (fresh, keys) =
      ground (arith, entries_lem d xs keys, fresh, edit_at-same_date d e xs)

put_edit-HasKeys :
    (d : Date) (v : String) (xs : List (Date × String)) → HasKeys xs → HasKeys (put_edit d v xs)
unfolding put_edit edit_at
put_edit-HasKeys d v [] keys = (refl, tt)
put_edit-HasKeys d v ((e, w) ∷ xs) (fresh, keys) = ground (
  arith,
  put_edit-HasKeys d v xs keys,
  fresh,
  edit_at-put_edit d e v xs,
  edit_at-same_date d e xs,
)

-- The row that the server returns for a date has the status and the template of the entry sent for it.
abbrev pub TakesOver : Date → Entry → List ShiftSchedule → Type 0
TakesOver d entry rows =
    (row : ShiftSchedule) × (server_at d rows ≡ some row)
    × (row.status ≡ entry.status)
    × (row.shift_template_id ≡ entry.shift_template_id)

entry_of-shown_row :
    (employee : String) (d : Date) (v : String)
    → let entry = entry_of employee d v in shown_row entry.status entry.shift_template_id ≡ v
unfolding entry_of
entry_of-shown_row employee d v = grind (arith, eq_iff v rest)

-- A cell with an edit shows the same value after a save whose entry the server has taken over.
saved-keeps :
    (s : Editor) (employee v : String) (d : ℕ) (rows : List ShiftSchedule)
    → edit_at (date_of s d) s.edits ≡ some v
    → TakesOver (date_of s d) (entry_of employee (date_of s d) v) rows
    → cell_value (saved rows s) d ≡ cell_value s d
unfolding saved cell_value edit_at
saved-keeps s employee v d rows edited (row, at, status, template) =
    ground (arith, edited, at, status, template, entry_of-shown_row employee (date_of s d) v)

-- A cell that was cleared shows nothing, saving sends no entry for its date, and after a save that left the
-- rows as they were the cell shows again what it showed without the edit.
pub cleared_cell_is_lost :
    (s : Editor) (d : ℕ) (employee : String)
    → HasKeys s.edits
    → let cleared = set_cell d "" s in
      (cell_value cleared d ≡ "")
      × (entry_at (date_of s d) (entries employee cleared.edits) ≡ none)
      × (cell_value (saved s.schedule cleared) d
          ≡ shown (server_at (date_of s d) s.schedule) s.default_template_id)
unfolding saved cell_value set_cell edit_at
cleared_cell_is_lost s d employee keys =
    let written = edit_at-put_edit (date_of s d) (date_of s d) "" s.edits in
    ground (
      arith,
      written,
      entries_lem employee (date_of s d) (put_edit (date_of s d) "" s.edits)
          (put_edit-HasKeys (date_of s d) "" s.edits keys),
    )
