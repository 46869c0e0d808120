-- ===== src/Schedule/Months.antt =====
-- Moving between months (admin-web/src/pages/app/employees/MonthlyScheduleEditor.tsx).
use hr_profi_uz.Common.{◌≤◌, ◌≡◌, [], arith}
use hr_profi_uz.Schedule.Editor.{step_month, Editor, Delta, opposite, back, forward}

-- From a month of the calendar, a step leads to a month of the calendar and drops the edits; the opposite
-- step leads back to the year and the month, as long as the year is not 0.
step_month-back :
    (s : Editor) (d : Delta)
    → 1 ≤ s.month
    → s.month ≤ 12
    → 1 ≤ s.year
    → let t = step_month d s in
      let u = step_month (opposite d) t in
      (1 ≤ t.month) × (t.month ≤ 12) × (t.edits ≡ []) × (u.year ≡ s.year) × (u.month ≡ s.month)
unfolding step_month
step_month-back s back h k y = ground arith
step_month-back s forward h k y = ground arith
