-- ===== src/Attendance/Today.antt =====
-- The day's work of an employee (admin-web/src/pages/app/employees/LiveEarningsCard.tsx). Times and
-- durations are in milliseconds; the source divides the durations by 3,600,000 for hours.
use hr_profi_uz.Attendance.Records.{
  AttendanceRecord, CheckType, check_in, check_out, AttendanceRecordStatus, valid, suspicious,
  rejected,
}
use hr_profi_uz.Common.{
  List, [], ◌∷◌, Option, none, some, Bool, true, false, ℕ, ◌+◌, ◌-◌, leb, ltb, if◌then◌else◌,
  filter_by, sort_by,
}

pub record TodayBreakdown : Type 0 where
  pub worked : ℕ
  pub in_progress : Bool
  pub in_progress_since : Option ℕ
  pub closed : ℕ

abbrev pub is_kept : AttendanceRecordStatus → Bool
is_kept valid = true
is_kept suspicious = true
is_kept rejected = false

abbrev pub earlier : AttendanceRecord → AttendanceRecord → Bool
earlier a b = leb a.timestamp b.timestamp

-- `asc`
unfoldable pub ascending : List AttendanceRecord → List AttendanceRecord
ascending records = sort_by earlier (filter_by (λ r. is_kept r.status) records)

-- `closedMs` and `openSinceMs` after a record. The records come by time, so no difference is negative.
abbrev pub pair : CheckType → ℕ → ℕ → Option ℕ → ℕ × Option ℕ
pair check_in t closed since = (closed, some t)
pair check_out t closed none = (closed, none)
pair check_out t closed (some start) = (closed + (t - start), none)

-- The loop.
unfoldable pub sum_pairs : List AttendanceRecord → ℕ → Option ℕ → ℕ × Option ℕ
sum_pairs [] closed since = (closed, since)
sum_pairs (r ∷ rs) closed since =
    let next = pair r.check_type r.timestamp closed since in sum_pairs rs next.0 next.1

abbrev pub breakdown : ℕ → ℕ → Option ℕ → TodayBreakdown
breakdown now closed none = record {
  worked = closed;
  in_progress = false;
  in_progress_since = none;
  closed = closed;
}
breakdown now closed (some start) = record {
  worked = closed + (now - start);
  in_progress = true;
  in_progress_since = some start;
  closed = closed;
}

unfoldable pub summarise_today : ℕ → List AttendanceRecord → TodayBreakdown
unfolding ascending sum_pairs
summarise_today now records =
    let sums = sum_pairs (ascending records) 0 none in breakdown now sums.0 sums.1

abbrev pub is_type : CheckType → CheckType → Bool
is_type check_in check_in = true
is_type check_in check_out = false
is_type check_out check_in = false
is_type check_out check_out = true

abbrev pub later_of : AttendanceRecord → AttendanceRecord → AttendanceRecord
later_of a b = if ltb b.timestamp a.timestamp then a else b

-- `reduce`, from its first element on.
abbrev pub latest_of : AttendanceRecord → List AttendanceRecord → AttendanceRecord
latest_of a [] = a
latest_of a (b ∷ rs) = latest_of (later_of a b) rs

abbrev pub latest : List AttendanceRecord → Option AttendanceRecord
latest [] = none
latest (r ∷ rs) = some (latest_of r rs)

-- `lastCheckIn` and `lastCheckOut`
unfoldable pub last_check : CheckType → List AttendanceRecord → Option AttendanceRecord
last_check type records = latest (filter_by (λ r. is_type r.check_type type) records)
