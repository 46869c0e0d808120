-- ===== src/Schedule.antt =====
-- The monthly schedule editor: admin-web/src/pages/app/employees/MonthlyScheduleEditor.tsx, over
-- `ShiftSchedule` of admin-web/src/lib/types.ts.
pub mod Editor
pub mod Cells
pub mod Months
pub mod Saving
mod Tests
