-- ===== src/Settings.antt =====
-- The company's settings as two tabs of the panel edit them: admin-web/src/pages/app/settings.
pub mod Tabs
pub mod Days
mod Keys
pub mod Merging
pub mod Toggling
pub mod ReadBack
mod Tests
