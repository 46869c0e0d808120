-- ===== src/Theme.antt =====
-- The theme and the sidebar of the panel: admin-web/src/lib/theme.ts and admin-web/src/stores/ui.ts.
mod Store
mod Sidebar
pub mod Following
mod Tests
