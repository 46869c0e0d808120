-- ===== src/Employees.antt =====
-- The form of an employee: admin-web/src/pages/app/employees/EmployeeForm.tsx.
mod Form
pub mod Saving
mod Tests
