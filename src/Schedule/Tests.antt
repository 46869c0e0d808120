-- ===== src/Schedule/Tests.antt =====
-- The schedule editor's theorems at a concrete month.
use hr_profi_uz.Schedule.Editor.{
  Editor, ShiftSchedule, Date, planned, cell_value, set_cell, entries, saved, edit_at, server_at,
}
use hr_profi_uz.Schedule.Saving.{cleared_cell_is_lost, entry_at}
use hr_profi_uz.Common.{refl, none, some, [], ◌∷◌, ℕ, false, ◌≡◌}

abbrev day_at : ℕ → Date
day_at d = record { year = 2024; month = 2; day = d }

abbrev row : ShiftSchedule
row = record {
  id = "s1";
  company_id = "c1";
  employee_id = "e1";
  shift_template_id = some "night";
  date = day_at 6;
  custom_start = none;
  custom_end = none;
  status = planned;
}

abbrev february : Editor
february = record {
  employee_id = "e1";
  default_template_id = some "day";
  year = 2024;
  month = 2;
  edits = (day_at 5, "REST") ∷ [];
  save_flash = false;
  schedule = row ∷ [];
}

cleared_cell_is_lost_example :
    let cleared = set_cell 6 "" february in
    (cell_value cleared 6 ≡ "")
    × (entry_at (day_at 6) (entries "e1" cleared.edits) ≡ none)
    × (cell_value (saved february.schedule cleared) 6 ≡ "night")
unfolding edit_at server_at
cleared_cell_is_lost_example = cleared_cell_is_lost february 6 "e1" (refl, tt)
