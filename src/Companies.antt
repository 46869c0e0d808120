-- ===== src/Companies.antt =====
-- The owner's companies: admin-web/src/pages/owner/companies.
mod Form
pub mod Saving
