-- ===== src/Kpi.antt =====
-- The performance indicators of the panel: admin-web/src/pages/app/kpi.
mod Template
mod Bulk
pub mod Saving
pub mod Picking
mod Tests
