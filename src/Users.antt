-- ===== src/Users.antt =====
-- The panel's user accounts: admin-web/src/pages/app/users.
pub mod Form
mod Listing
pub mod Saving
pub mod Totals
