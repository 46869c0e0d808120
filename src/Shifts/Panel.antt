-- ===== src/Shifts/Panel.antt =====
-- The state of `SchedulePanel` and what it shows (admin-web/src/pages/app/shifts/SchedulePanel.tsx). A key
-- `<employee>|<date>` is the record of its two parts. `normal` is `trim` followed by `toLowerCase`.
use hr_profi_uz.Common.{
  String, Option, none, some, Bool, true, false, List, [], ◌∷◌, ℕ, ◌+◌, ◌===◌, ◌&&◌, not, is_blank,
  if◌then◌else◌, filter_by, find_by, is_some, ltb, ◌-◌,
}
use hr_profi_uz.Staff.{Employee}
use hr_profi_uz.Departments.Form.{Department}
use hr_profi_uz.Schedule.Editor.{
  Date, same_date, ShiftSchedule, shown_row, days_in_month, Delta, back, forward,
}
use hr_profi_uz.Shifts.Template.{ShiftTemplate}

pub record Cell : Type 0 where
  pub employee_id : String
  pub date : Date

abbrev pub same_cell : Cell → Cell → Bool
same_cell a b = a.employee_id === b.employee_id && same_date a.date b.date

abbrev pub Edits : Type 0
Edits = List (Cell × String)

pub record Panel : Type 0 where
  pub year : ℕ
  pub month : ℕ
  pub edits : Edits
  pub save_flash : Bool
  pub query : String
  pub branch_filter : String
  pub dept_filter : String
  pub templates : List ShiftTemplate
  pub all_employees : List Employee
  pub all_depts : List Department
  pub schedule : List ShiftSchedule  -- `scheduleQ.data ?? []`

-- `edits[key]`
unfoldable pub edit_of : Cell → Edits → Option String
edit_of c [] = none
edit_of c ((b, v) ∷ edits) = if same_cell b c then some v else edit_of c edits

-- `next[key] = value`
unfoldable pub write : Cell → String → Edits → Edits
write c v [] = (c, v) ∷ []
write c v ((b, w) ∷ edits) =
    let rest = write c v edits in if same_cell b c then (b, v) ∷ edits else (b, w) ∷ rest

-- `delete next[key]`
unfoldable pub erase : Cell → Edits → Edits
erase c [] = []
erase c ((b, w) ∷ edits) = let rest = erase c edits in if same_cell b c then rest else (b, w) ∷ rest

abbrev pub everything : String
everything = "all"

-- `deptOptions`
unfoldable pub dept_options : Panel → List Department
dept_options p =
    if p.branch_filter === everything
    then p.all_depts
    else filter_by (λ d. d.branch_id === p.branch_filter) p.all_depts

-- The effect that resets the department.
unfoldable pub reset_dept : Panel → Panel
unfolding dept_options
reset_dept p =
    if not (p.dept_filter === everything)
      && (not (p.branch_filter === everything)
          && not (is_some (find_by (λ d. d.id === p.dept_filter) (dept_options p))))
    then record p { dept_filter = everything }
    else p

-- `value === wanted`, where `value` may be `null`.
abbrev pub is_text : Option String → String → Bool
is_text none wanted = false
is_text (some value) wanted = value === wanted

module _ (normal lower : String → String) (includes : String → String → Bool) where
  -- The test of `employees`.
  abbrev pub is_visible : Panel → Employee → Bool
  is_visible p e =
      let q = normal p.query in
      if not (p.branch_filter === everything) && not (is_text e.branch_id p.branch_filter)
      then false
      else if not (p.dept_filter === everything) && not (is_text e.department_id p.dept_filter)
      then false
      else if not (is_blank q)
          && (not (includes (lower e.full_name) q) && not (includes (lower e.employee_code) q))
      then false
      else true

  unfoldable pub employees : Panel → List Employee
  employees p = filter_by (is_visible p) p.all_employees

-- `serverIndex[key]`: of two rows of one key the later one counts.
unfoldable pub server_row : Cell → List ShiftSchedule → Option ShiftSchedule
server_row c [] = none
server_row c (s ∷ rows) = elim (server_row c rows) [
  | none ↦
      if same_cell (record { employee_id = s.employee_id; date = s.date }) c then some s else none
  | some later ↦ some later
]

abbrev pub shown_at : Option ShiftSchedule → String
shown_at none = ""
shown_at (some srv) = shown_row srv.status srv.shift_template_id

abbrev pub value_or : Option String → String → String
value_or none value = value
value_or (some old) value = old

abbrev pub cell : Panel → String → ℕ → Cell
cell p employee d = record {
  employee_id = employee;
  date = record { year = p.year; month = p.month; day = d };
}

unfoldable pub cell_value : Panel → String → ℕ → String
cell_value p employee d =
    let key = cell p employee d in
    value_or (edit_of key p.edits) (shown_at (server_row key p.schedule))

unfoldable pub set_cell : String → ℕ → String → Panel → Panel
set_cell employee d value p = record p { edits = write (cell p employee d) value p.edits }

abbrev pub days : Panel → ℕ
days p = days_in_month p.year p.month

unfoldable pub step_month : Delta → Panel → Panel
step_month back p =
    if ltb (p.month - 1) 1
    then record p { year = p.year - 1; month = 12; edits = [] }
    else record p { month = p.month - 1; edits = [] }
step_month forward p =
    if ltb 12 (p.month + 1)
    then record p { year = p.year + 1; month = 1; edits = [] }
    else record p { month = p.month + 1; edits = [] }
