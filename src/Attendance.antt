-- ===== src/Attendance.antt =====
-- Attendance in the admin panel: admin-web/src/pages/app/employees/LiveEarningsCard.tsx and
-- admin-web/src/pages/app/attendance/LiveTab.tsx, over the records of admin-web/src/lib/types.ts.
mod Records
mod Today
pub mod Live
pub mod Worked
pub mod Checks
pub mod Pills
mod Tests
