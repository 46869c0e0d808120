-- ===== src/Attendance/Live.antt =====
-- `LiveTab` (admin-web/src/pages/app/attendance/LiveTab.tsx). `normal` is `trim` followed by
-- `toLowerCase`.
use hr_profi_uz.Attendance.Records.{
  DailyOverviewRow, ShiftStatusLabel, present, late, in_progress, absent, on_leave, rest_day,
  not_scheduled, Branch,
}
use hr_profi_uz.Common.{
  ◌==◌, String, List, [], ◌∷◌, Option, none, some, Bool, true, false, not, ℕ, ◌+◌, ltb, ◌===◌, ◌&&◌,
  ◌||◌, is_blank, if◌then◌else◌, filter_by, length, Entries, lookup, insert,
}

-- `statusFilter`
pub data StatusFilter : Type 0 where
  all : StatusFilter
  only : ShiftStatusLabel → StatusFilter

-- One number for each label.
abbrev pub code : ShiftStatusLabel → ℕ
code present = 0
code late = 1
code in_progress = 2
code absent = 3
code on_leave = 4
code rest_day = 5
code not_scheduled = 6

pub record Filters : Type 0 where
  pub query : String
  pub branch_filter : String
  pub status_filter : StatusFilter

abbrev pub has_status : DailyOverviewRow → ShiftStatusLabel → Bool
has_status r s = code r.shift_status == code s

abbrev pub is_text : Option String → String → Bool
is_text none wanted = false
is_text (some value) wanted = value === wanted

-- The rules for the status.
abbrev pub keeps_status : StatusFilter → DailyOverviewRow → Bool
keeps_status all r = true
keeps_status (only in_progress) r = r.is_currently_in
keeps_status (only present) r = has_status r present || has_status r in_progress
keeps_status (only late) r = has_status r late
keeps_status (only absent) r = has_status r absent
keeps_status (only on_leave) r = has_status r on_leave
keeps_status (only rest_day) r = has_status r rest_day
keeps_status (only not_scheduled) r = has_status r not_scheduled

module _ (normal lower : String → String) (includes : String → String → Bool) where
  abbrev pub is_listed : Filters → DailyOverviewRow → Bool
  is_listed f r =
      let q = normal f.query in
      if not (f.branch_filter === "all") && not (is_text r.branch_id f.branch_filter)
      then false
      else if not (keeps_status f.status_filter r)
      then false
      else if not (is_blank q)
          && (not (includes (lower r.full_name) q) && not (includes (lower r.employee_code) q))
      then false
      else true

  unfoldable pub filtered : Filters → List DailyOverviewRow → List DailyOverviewRow
  filtered f rows = filter_by (is_listed f) rows

pub record LiveStats : Type 0 where
  pub total : ℕ
  pub working : ℕ
  pub present_count : ℕ
  pub late_count : ℕ
  pub absent_count : ℕ
  pub on_leave_count : ℕ
  pub rest : ℕ
  pub not_scheduled_count : ℕ
  pub ot_minutes : ℕ

-- `if (test) counter += 1`
abbrev pub count_if : Bool → ℕ → ℕ
count_if true n = n + 1
count_if false n = n

-- The body of the loop of `stats`.
abbrev pub add_row : DailyOverviewRow → LiveStats → LiveStats
add_row r s = record {
  total = s.total;
  working = count_if r.is_currently_in s.working;
  present_count = count_if (has_status r present || has_status r in_progress) s.present_count;
  late_count = count_if (has_status r late) s.late_count;
  absent_count = count_if (has_status r absent) s.absent_count;
  on_leave_count = count_if (has_status r on_leave) s.on_leave_count;
  rest = count_if (has_status r rest_day) s.rest;
  not_scheduled_count = count_if (has_status r not_scheduled) s.not_scheduled_count;
  ot_minutes = s.ot_minutes + r.overtime_minutes;
}

unfoldable pub add_rows : List DailyOverviewRow → LiveStats → LiveStats
add_rows [] s = s
add_rows (r ∷ rows) s = add_rows rows (add_row r s)

-- `out` before the loop.
abbrev pub no_counts : ℕ → LiveStats
no_counts total = record {
  total = total;
  working = 0;
  present_count = 0;
  late_count = 0;
  absent_count = 0;
  on_leave_count = 0;
  rest = 0;
  not_scheduled_count = 0;
  ot_minutes = 0;
}

unfoldable pub live_stats : List DailyOverviewRow → LiveStats
unfolding add_rows
live_stats rows = add_rows rows (no_counts (length rows))

-- The `count` of each pill.
abbrev pub pill_count : StatusFilter → LiveStats → ℕ
pill_count all s = s.total
pill_count (only in_progress) s = s.working
pill_count (only present) s = s.present_count
pill_count (only late) s = s.late_count
pill_count (only absent) s = s.absent_count
pill_count (only on_leave) s = s.on_leave_count
pill_count (only rest_day) s = s.rest
pill_count (only not_scheduled) s = s.not_scheduled_count

-- `?? 0`
abbrev pub or_zero : Option ℕ → ℕ
or_zero none = 0
or_zero (some n) = n

abbrev pub count_branch : Option String → Entries ℕ → Entries ℕ
count_branch none m = m
count_branch (some id) m = if is_blank id then m else insert id (or_zero (lookup id m) + 1) m

-- `branchCounts`
unfoldable pub branch_counts : List DailyOverviewRow → Entries ℕ → Entries ℕ
branch_counts [] m = m
branch_counts (r ∷ rows) m = branch_counts rows (count_branch r.branch_id m)

unfoldable pub visible_branches : List DailyOverviewRow → List Branch → List Branch
unfolding branch_counts
visible_branches rows branches =
    filter_by (λ b. b.is_active || ltb 0 (or_zero (lookup b.id (branch_counts rows [])))) branches
