-- ===== src/Shifts.antt =====
-- The schedule of all employees: admin-web/src/pages/app/shifts/SchedulePanel.tsx, over `ShiftTemplate` of
-- admin-web/src/lib/types.ts.
mod Template
mod Panel
mod Actions
pub mod Cells
pub mod Defaults
pub mod Bulk
pub mod Clearing
pub mod Saving
pub mod Counts
mod Hue
mod Tests
