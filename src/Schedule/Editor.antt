-- ===== src/Schedule/Editor.antt =====
-- `MonthlyScheduleEditor` (admin-web/src/pages/app/employees/MonthlyScheduleEditor.tsx). A text
-- `YYYY-MM-DD` is the record of the three numbers that it prints. `weekday` is `getDay` of a date.
use hr_profi_uz.Common.{
  Option, if◌then◌else◌, List, ℕ, String, Bool, some, is_blank, ◌===◌, [], ◌%◌, ◌==◌, ◌∷◌, ltb, suc,
  none, ◌||◌, true, ◌&&◌, ◌+◌, ◌-◌, not, zero,
}

pub data ScheduleStatus : Type 0 where
  planned swapped cancelled on_leave rest_day : ScheduleStatus

pub record Date : Type 0 where
  pub year : ℕ
  pub month : ℕ
  pub day : ℕ

abbrev pub same_date : Date → Date → Bool
same_date a b = a.year == b.year && (a.month == b.month && a.day == b.day)

-- `ShiftSchedule`
pub record ShiftSchedule : Type 0 where
  pub id : String
  pub company_id : String
  pub employee_id : String
  pub shift_template_id : Option String
  pub date : Date
  pub custom_start : Option String
  pub custom_end : Option String
  pub status : ScheduleStatus

pub record Editor : Type 0 where
  pub employee_id : String
  pub default_template_id : Option String
  pub year : ℕ
  pub month : ℕ
  pub edits : List (Date × String)
  pub save_flash : Bool
  pub schedule : List ShiftSchedule  -- `scheduleQ.data ?? []`

abbrev pub rest : String
rest = "REST"

abbrev pub is_leap : ℕ → Bool
is_leap y = y % 4 == 0 && (not (y % 100 == 0) || y % 400 == 0)

-- `new Date(year, month, 0).getDate()`, for a month from 1 to 12.
unfoldable pub days_in_month : ℕ → ℕ → ℕ
days_in_month year month =
    if month == 2
    then (if is_leap year then 29 else 28)
    else if month == 4 || (month == 6 || (month == 9 || month == 11))
    then 30
    else 31

-- `edits[dateStr]`
unfoldable pub edit_at : Date → List (Date × String) → Option String
edit_at d [] = none
edit_at d ((e, v) ∷ edits) = if same_date e d then some v else edit_at d edits

-- `{ ...edits, [dateStr]: val }`
unfoldable pub put_edit : Date → String → List (Date × String) → List (Date × String)
put_edit d v [] = (d, v) ∷ []
put_edit d v ((e, w) ∷ edits) =
    if same_date e d then (e, v) ∷ edits else (e, w) ∷ put_edit d v edits

-- `serverIndex`: of two rows with one date the later one counts.
unfoldable pub server_at : Date → List ShiftSchedule → Option ShiftSchedule
server_at d [] = none
server_at d (s ∷ rows) = elim (server_at d rows) [
  | none ↦ if same_date s.date d then some s else none
  | some later ↦ some later
]

abbrev pub or_empty : Option String → String
or_empty none = ""
or_empty (some s) = s

abbrev pub shown_row : ScheduleStatus → Option String → String
shown_row rest_day template = rest
shown_row planned template = or_empty template
shown_row swapped template = or_empty template
shown_row cancelled template = or_empty template
shown_row on_leave template = or_empty template

-- The value of a cell that has no edit.
abbrev pub shown : Option ShiftSchedule → Option String → String
shown none default = or_empty default
shown (some srv) default = shown_row srv.status srv.shift_template_id

abbrev pub date_of : Editor → ℕ → Date
date_of s d = record { year = s.year; month = s.month; day = d }

unfoldable pub cell_value : Editor → ℕ → String
cell_value s d = elim (edit_at (date_of s d) s.edits) [
  | none ↦ shown (server_at (date_of s d) s.schedule) s.default_template_id
  | some v ↦ v
]

unfoldable pub set_cell : ℕ → String → Editor → Editor
set_cell d v s = record s { edits = put_edit (date_of s d) v s.edits }

-- A row of the request that saves.
pub record Entry : Type 0 where
  pub employee_id : String
  pub date : Date
  pub shift_template_id : Option String
  pub status : ScheduleStatus

unfoldable pub entry_of : String → Date → String → Entry
entry_of employee d v =
    if v === rest
    then record { employee_id = employee; date = d; shift_template_id = none; status = rest_day }
    else record { employee_id = employee; date = d; shift_template_id = some v; status = planned }

-- The `entries` of `saveMut`.
unfoldable pub entries : String → List (Date × String) → List Entry
unfolding entry_of
entries employee [] = []
entries employee ((d, v) ∷ edits) =
    let others = entries employee edits in
    if is_blank v then others else entry_of employee d v ∷ others

-- `onSuccess`, after the refetch has brought `rows`.
unfoldable pub saved : List ShiftSchedule → Editor → Editor
saved rows s = record s { schedule = rows; edits = []; save_flash = true }

-- The two buttons of the header.
pub data Delta : Type 0 where
  back forward : Delta

abbrev pub opposite : Delta → Delta
opposite back = forward
opposite forward = back

unfoldable pub step_month : Delta → Editor → Editor
step_month back s =
    if ltb (s.month - 1) 1
    then record s { year = s.year - 1; month = 12; edits = [] }
    else record s { month = s.month - 1; edits = [] }
step_month forward s =
    if ltb 12 (s.month + 1)
    then record s { year = s.year + 1; month = 1; edits = [] }
    else record s { month = s.month + 1; edits = [] }

module _ (weekday : Date → ℕ) where
  abbrev pub is_weekend : Date → Bool
  is_weekend d = weekday d == 0 || weekday d == 6

  -- The loop of `applyDefaultPattern` over `n` days from `d` on.
  unfoldable pub fill : String → Editor → ℕ → ℕ → List (Date × String) → List (Date × String)
  fill template s zero d edits = edits
  fill template s (suc n) d edits =
      fill template s n (d + 1)
        (put_edit (date_of s d) (if is_weekend (date_of s d) then rest else template) edits)

  unfoldable pub apply_default_pattern : Editor → Editor
  unfolding fill
  apply_default_pattern s = elim s.default_template_id [
    | none ↦ s
    | some template ↦
        if is_blank template
        then s
        else record s { edits = fill template s (days_in_month s.year s.month) 1 s.edits }
  ]

pub record Stats : Type 0 where
  pub work : ℕ
  pub resting : ℕ
  pub nothing : ℕ

abbrev pub count_cell : String → Stats → Stats
count_cell v t =
    if is_blank v
    then record t { nothing = t.nothing + 1 }
    else if v === rest
    then record t { resting = t.resting + 1 }
    else record t { work = t.work + 1 }

-- The loop of `stats` over `n` days from `d` on.
unfoldable pub count_cells : Editor → ℕ → ℕ → Stats → Stats
count_cells s zero d t = t
count_cells s (suc n) d t = count_cells s n (d + 1) (count_cell (cell_value s d) t)

unfoldable pub stats : Editor → Stats
unfolding count_cells
stats s =
    count_cells s (days_in_month s.year s.month) 1 (record { work = 0; resting = 0; nothing = 0 })
