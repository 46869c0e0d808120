-- ===== src/Attendance/Tests.antt =====
-- The attendance theorems at a concrete day.
use hr_profi_uz.Attendance.Records.{
  AttendanceRecord, CheckType, check_in, check_out, AttendanceRecordStatus, valid, rejected,
  kiosk_tablet, DailyOverviewRow, ShiftStatusLabel, late, in_progress, present,
}
use hr_profi_uz.Attendance.Today.{summarise_today, ascending}
use hr_profi_uz.Attendance.Live.{only, filtered, pill_count, live_stats}
use hr_profi_uz.Attendance.Worked.{paired, running, summarise_today_exact, summarise_today_bounds}
use hr_profi_uz.Attendance.Pills.{pills_agree}
use hr_profi_uz.Common.{
  String, none, some, Bool, true, false, List, [], ◌∷◌, ℕ, ◌+◌, ◌≡◌, ◌≤◌, refl, arith, length,
  is_some, sort_by,
}

abbrev check : CheckType → ℕ → AttendanceRecordStatus → AttendanceRecord
check type t status = record {
  id = "r";
  company_id = "c1";
  employee_id = "e1";
  branch_id = some "b1";
  check_type = type;
  method = kiosk_tablet;
  timestamp = t;
  latitude = none;
  longitude = none;
  accuracy_m = none;
  selfie_url = none;
  face_match_score = none;
  is_late = false;
  late_minutes = 0;
  is_early_leave = false;
  overtime_minutes = 0;
  status = status;
  notes = none;
  created_at = "";
  branch_name = none;
  branch_geofence_radius_m = none;
  distance_from_branch_m = none;
  within_geofence = none;
}

-- Newest first: in at 100, a rejected check-out at 150, out at 300, in again at 400.
abbrev day : List AttendanceRecord
day =
    check check_in 400 valid
    ∷ check check_out 300 valid
    ∷ check check_out 150 rejected
    ∷ check check_in 100 valid
    ∷ []

worked_run : (summarise_today 450 day).worked ≡ 250
unfolding summarise_today sort_by
worked_run = refl

summarise_today_exact_example :
    let b = summarise_today 450 day in
    (b.closed ≡ paired (ascending day))
    × (b.in_progress_since ≡ running none (ascending day))
    × (b.in_progress ≡ is_some b.in_progress_since)
summarise_today_exact_example = summarise_today_exact 450 day

hundred : 100 ≤ 450
hundred = omega arith

summarise_today_bounds_example : (summarise_today 450 day).worked + 100 ≤ 450
summarise_today_bounds_example = summarise_today_bounds 100 450 day hundred (
  (omega arith, omega arith),
  ((omega arith, omega arith), ((omega arith, omega arith), ((omega arith, omega arith), tt))),
)

abbrev overview : String → ShiftStatusLabel → Bool → DailyOverviewRow
overview id status inside = record {
  employee_id = id;
  employee_code = id;
  full_name = id;
  photo_url = none;
  branch_id = some "b1";
  department_id = none;
  position = none;
  first_check_in = none;
  last_check_out = none;
  is_currently_in = inside;
  minutes_worked = 0;
  late_minutes = 0;
  overtime_minutes = 0;
  shift_status = status;
}

abbrev rows : List DailyOverviewRow
rows = overview "e1" late true ∷ overview "e2" in_progress true ∷ overview "e3" present false ∷ []

abbrev as_typed : String → String
as_typed s = s

abbrev no_match : String → String → Bool
no_match text part = false

pills_agree_example :
    length (
      filtered as_typed as_typed no_match
        (record { query = ""; branch_filter = "all"; status_filter = only in_progress })
        rows)
    ≡ pill_count (only in_progress) (live_stats rows)
pills_agree_example = pills_agree as_typed as_typed no_match "" (only in_progress) rows refl
