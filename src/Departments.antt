-- ===== src/Departments.antt =====
-- The departments of a company: the form (admin-web/src/pages/app/departments/DepartmentForm.tsx)
-- and the list (admin-web/src/pages/app/departments/DepartmentsList.tsx).
pub mod Form
pub mod Picker
mod Visit
pub mod Closure
pub mod Cycles
mod Listing
mod Occurs
pub mod Rows
pub mod Hidden
pub mod Groups
mod Tests
