-- ===== src/Shifts/Tests.antt =====
-- The table's theorems at a concrete month.
use hr_profi_uz.Schedule.Editor.{Date, ShiftSchedule, rest_day, days_in_month}
use hr_profi_uz.Staff.{Employee, fixed_shift, monthly}
use hr_profi_uz.Shifts.Template.{ShiftTemplate, fixed}
use hr_profi_uz.Shifts.Panel.{Panel, Cell, cell_value, edit_of, days, server_row, write}
use hr_profi_uz.Shifts.Actions.{
  apply_default_row, apply_default_all, sent_all, default_value, settled, entries, clear_start,
  clear_end, save_request, entry_of, saved, fill_row,
}
use hr_profi_uz.Shifts.Cells.{in_row}
use hr_profi_uz.Shifts.Bulk.{rows_in_turn, apply_default_all_in_turn}
use hr_profi_uz.Shifts.Clearing.{clear_row_edits, edit_after_clear}
use hr_profi_uz.Shifts.Saving.{TakesOver, entry_at, saved-cell_value}
use hr_profi_uz.Shifts.Hue.{template_hue}
use hr_profi_uz.Common.{
  String, Option, none, some, true, false, List, [], ◌∷◌, ℕ, ◌+◌, ◌%◌, if◌then◌else◌, ◌≡◌, refl,
}

abbrev employee : String → Option String → Employee
employee id template = record {
  id = id;
  company_id = "c1";
  branch_id = some "b1";
  department_id = none;
  user_id = none;
  employee_code = id;
  full_name = id;
  photo_url = none;
  phone = none;
  email = none;
  position = none;
  hire_date = none;
  birth_date = none;
  gender = none;
  passport = none;
  inn = none;
  address = none;
  emergency_contact_name = none;
  emergency_contact_phone = none;
  emergency_contact_relation = none;
  bank_card_number = none;
  bank_name = none;
  notes = none;
  work_type = fixed_shift;
  shift_template_id = template;
  salary_type = monthly;
  base_salary = none;
  hourly_rate = none;
  daily_rate = none;
  overtime_multiplier = "1.5";
  is_active = true;
  terminated_at = none;
  created_at = "2024-01-01";
  updated_at = "2024-01-01";
}

abbrev staff : List Employee
staff = employee "e1" (some "day") ∷ employee "e2" none ∷ []

-- Saturday is a working day of the template.
abbrev day_template : ShiftTemplate
day_template = record {
  id = "day";
  company_id = "c1";
  name = "Day";
  type = fixed;
  start_time = some "09:00:00";
  end_time = some "18:00:00";
  break_minutes = 60;
  expected_hours = some "8";
  allow_overtime = true;
  is_active = true;
  working_days = 1 ∷ 2 ∷ 3 ∷ 4 ∷ 5 ∷ 6 ∷ [];
}

abbrev day_at : ℕ → Date
day_at d = record { year = 2024; month = 2; day = d }

abbrev cell_of : String → ℕ → Cell
cell_of id d = record { employee_id = id; date = day_at d }

abbrev row : ShiftSchedule
row = record {
  id = "s1";
  company_id = "c1";
  employee_id = "e1";
  shift_template_id = none;
  date = day_at 5;
  custom_start = none;
  custom_end = none;
  status = rest_day;
}

abbrev february : Panel
february = record {
  year = 2024;
  month = 2;
  edits = (cell_of "e1" 5, "REST") ∷ [];
  save_flash = false;
  query = "";
  branch_filter = "all";
  dept_filter = "all";
  templates = day_template ∷ [];
  all_employees = staff;
  all_depts = [];
  schedule = [];
}

-- The day of the week of a date of February 2024, which began on a Thursday.
abbrev weekday : Date → ℕ
weekday d = (d.day + 3) % 7

apply_default_row_run : cell_value (apply_default_row weekday staff "e1" february) "e1" 10 ≡ "day"
unfolding apply_default_row cell_value fill_row edit_of write days_in_month default_value
apply_default_row_run = refl

apply_default_all_in_turn_example :
    let turned = rows_in_turn weekday staff staff february in
    (apply_default_all weekday staff true (some (row ∷ [])) february
      ≡ settled (some (row ∷ [])) turned)
    × (sent_all weekday staff true february ≡ some (entries turned.edits))
apply_default_all_in_turn_example =
    apply_default_all_in_turn weekday (employee "e1" (some "day")) (employee "e2" none ∷ [])
      (some (row ∷ [])) february ((refl, tt), (tt, tt))

clear_row_edits_example :
    let in_first = in_row february "e1" 1 (days february) (cell_of "e1" 5) in
    (edit_of (cell_of "e1" 5) (clear_end february "e1" none (clear_start "e1" february)).edits
      ≡ (if in_first then edit_after_clear none else edit_of (cell_of "e1" 5) february.edits))
    × (edit_of (cell_of "e1" 5) (clear_end february "e1" (some (row ∷ [])) february).edits
        ≡ (if in_first then none else edit_of (cell_of "e1" 5) february.edits))
clear_row_edits_example = clear_row_edits february february "e1" none (row ∷ []) (cell_of "e1" 5)

edited : edit_of (cell_of "e1" 5) february.edits ≡ some "REST"
unfolding edit_of
edited = refl

taken_over : TakesOver (cell_of "e1" 5) (entry_of (cell_of "e1" 5) "REST") (row ∷ [])
unfolding server_row entry_of
taken_over = (row, refl, refl, refl)

saved-cell_value_example :
    (save_request february.edits ≡ some (entries february.edits))
    × (entry_at (cell_of "e1" 5) (entries february.edits) ≡ some (entry_of (cell_of "e1" 5) "REST"))
    × (cell_value (saved (row ∷ []) february) "e1" 5 ≡ cell_value february "e1" 5)
saved-cell_value_example = saved-cell_value february "e1" "REST" 5 (row ∷ []) edited taken_over

template_hue_run : template_hue (b'a' ∷ b'b' ∷ []) ≡ 225
unfolding template_hue
template_hue_run = refl
