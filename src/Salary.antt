-- ===== src/Salary.antt =====
-- The salary periods of a month: admin-web/src/pages/app/salary/PeriodsTab.tsx, over the records of
-- admin-web/src/lib/types.ts.
mod Periods
mod Csv
pub mod Chips
pub mod Fields
mod Tests
