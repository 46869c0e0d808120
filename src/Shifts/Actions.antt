-- ===== src/Shifts/Actions.antt =====
-- The actions of `SchedulePanel` that change many cells
-- (admin-web/src/pages/app/shifts/SchedulePanel.tsx). `weekday` is `getDay` of a date; `reload` of an
-- action is `none` when its request failed, and otherwise the schedule that the panel has after
-- `refetchQueries`: the one that the server sent, or, if the reading failed, the one that it had before,
-- since `refetchQueries` throws no error of a query.
use hr_profi_uz.Common.{
  String, Option, none, some, Bool, true, List, [], ◌∷◌, ℕ, zero, suc, ◌+◌, ◌===◌, ◌==◌, is_blank,
  if◌then◌else◌, find_by, any,
}
use hr_profi_uz.Staff.{Employee}
use hr_profi_uz.Users.Form.{full_text}
use hr_profi_uz.Schedule.Editor.{Date, ShiftSchedule, Entry, planned, rest_day, cancelled, rest}
use hr_profi_uz.Shifts.Template.{ShiftTemplate}
use hr_profi_uz.Shifts.Panel.{Panel, Cell, Edits, edit_of, write, erase, cell, days}

-- The entry that is sent for an edit.
unfoldable pub entry_of : Cell → String → Entry
entry_of c v =
    if is_blank v
    then record {
      employee_id = c.employee_id;
      date = c.date;
      shift_template_id = none;
      status = cancelled;
    }
    else if v === rest
    then record {
      employee_id = c.employee_id;
      date = c.date;
      shift_template_id = none;
      status = rest_day;
    }
    else record {
      employee_id = c.employee_id;
      date = c.date;
      shift_template_id = some v;
      status = planned;
    }

abbrev pub entries : Edits → List Entry
entries [] = []
entries ((c, v) ∷ edits) = entry_of c v ∷ entries edits

-- `onSuccess`, and the end of the actions that save.
unfoldable pub saved : List ShiftSchedule → Panel → Panel
saved rows p = record p { schedule = rows; edits = []; save_flash = true }

-- The end of an action that saves, `none` when its request failed.
abbrev pub settled : Option (List ShiftSchedule) → Panel → Panel
settled none p = p
settled (some rows) p = saved rows p

-- What `saveScheduleMut` sends: nothing without edits.
unfoldable pub save_request : Edits → Option (List Entry)
unfolding entry_of
save_request [] = none
save_request (edit ∷ edits) = some (entries (edit ∷ edits))

-- `tpl?.working_days`, or Monday to Friday.
unfoldable pub working_days : Option ShiftTemplate → List ℕ
working_days none = 1 ∷ 2 ∷ 3 ∷ 4 ∷ 5 ∷ []
working_days (some tpl) = elim tpl.working_days [ [] ↦ 1 ∷ 2 ∷ 3 ∷ 4 ∷ 5 ∷ [] | d ∷ ds ↦ d ∷ ds ]

-- `?.shift_template_id`, falsy when it is missing, `null` or blank.
abbrev pub template_of : Option Employee → Option String
template_of none = none
template_of (some e) = elim e.shift_template_id [ none ↦ none | some id ↦ full_text id ]

-- `continue` for a cell that has an edit.
abbrev pub keep_or_write : Option String → Cell → String → Edits → Edits
keep_or_write none c v edits = write c v edits
keep_or_write (some old) c v edits = edits

module _ (weekday : Date → ℕ) where
  unfoldable pub default_value : List ShiftTemplate → String → Date → String
  unfolding working_days
  default_value templates tpl date =
      let dow = weekday date in
      let iso = if dow == 0 then 7 else dow in
      let working = working_days (find_by (λ t. t.id === tpl) templates) in
      if any (λ d. d == iso) working then tpl else rest

  -- The loop over `n` days from `d` on.
  unfoldable pub fill_row : Panel → String → String → ℕ → ℕ → Edits → Edits
  fill_row p employee tpl zero d next = next
  fill_row p employee tpl (suc n) d next =
      let key = cell p employee d in
      fill_row p employee tpl n (d + 1)
        (keep_or_write (edit_of key next) key (default_value p.templates tpl key.date) next)

  -- `applyDefaultRow`, of the employees that the table shows.
  unfoldable pub apply_default_row : List Employee → String → Panel → Panel
  apply_default_row shown employee p = elim (template_of (find_by (λ e. e.id === employee) shown)) [
    | none ↦ p
    | some tpl ↦ record p { edits = fill_row p employee tpl (days p) 1 p.edits }
  ]

  -- The loop of `applyDefaultAll`: the edits, and the names of the employees without a template.
  unfoldable pub fill_all : Panel → List Employee → Edits → Edits
  fill_all p [] next = next
  fill_all p (e ∷ es) next = elim (template_of (some e)) [
    | none ↦ fill_all p es next
    | some tpl ↦ fill_all p es (fill_row p e.id tpl (days p) 1 next)
  ]

  abbrev pub skipped : List Employee → List String
  skipped [] = []
  skipped (e ∷ es) =
      let others = skipped es in
      elim (template_of (some e)) [ none ↦ e.full_name ∷ others | some tpl ↦ others ]

  -- `applyDefaultAll`, with the answer to its question. The edits stay when the request failed,
  -- and go when it came through, also if the schedule could not be read again.
  unfoldable pub apply_default_all :
      List Employee → Bool → Option (List ShiftSchedule) → Panel → Panel
  apply_default_all [] confirmed reload p = p
  apply_default_all (e ∷ es) confirmed reload p =
      if confirmed then settled reload (record p { edits = fill_all p (e ∷ es) p.edits }) else p

  -- What `applyDefaultAll` sends, if it sends anything.
  unfoldable pub sent_all : List Employee → Bool → Panel → Option (List Entry)
  sent_all [] confirmed p = none
  sent_all (e ∷ es) confirmed p =
      if confirmed then some (entries (fill_all p (e ∷ es) p.edits)) else none

-- The first loop of `clearRow`, over `n` days from `d` on.
unfoldable pub blank_row : Panel → String → ℕ → ℕ → Edits → Edits
blank_row p employee zero d next = next
blank_row p employee (suc n) d next =
    blank_row p employee n (d + 1) (write (cell p employee d) "" next)

-- The last loop of `clearRow`.
unfoldable pub erase_row : Panel → String → ℕ → ℕ → Edits → Edits
erase_row p employee zero d next = next
erase_row p employee (suc n) d next =
    erase_row p employee n (d + 1) (erase (cell p employee d) next)

-- `clearRow` until its request.
unfoldable pub clear_start : String → Panel → Panel
clear_start employee p = record p { edits = blank_row p employee (days p) 1 p.edits }

-- `clearRow` after its request, which was sent when the panel was `clicked`.
unfoldable pub clear_end : Panel → String → Option (List ShiftSchedule) → Panel → Panel
clear_end clicked employee none p = p
clear_end clicked employee (some rows) p = record p {
  schedule = rows;
  edits = erase_row clicked employee (days clicked) 1 p.edits;
  save_flash = true;
}

-- What `clearRow` sends for `n` days from `d` on.
abbrev pub cleared_entries : Panel → String → ℕ → ℕ → List Entry
cleared_entries p employee zero d = []
cleared_entries p employee (suc n) d =
    record {
      employee_id = employee;
      date = (cell p employee d).date;
      shift_template_id = none;
      status = cancelled;
    }
    ∷ cleared_entries p employee n (d + 1)

-- The loop of `fillColumn`.
abbrev pub fill_cells : Panel → ℕ → String → List Employee → Edits → Edits
fill_cells p day value [] next = next
fill_cells p day value (e ∷ es) next =
    fill_cells p day value es (write (cell p e.id day) value next)

unfoldable pub fill_column : List Employee → ℕ → String → Panel → Panel
fill_column shown day value p = record p { edits = fill_cells p day value shown p.edits }
