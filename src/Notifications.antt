-- ===== src/Notifications.antt =====
-- The notification store of the admin panel (admin-web/src/stores/notifications.ts, over
-- `AppNotification` of admin-web/src/lib/types.ts), and the translation of the notifications' texts
-- (admin-web/src/lib/notifications-i18n.ts).
mod Store
pub mod Unread
mod Legacy
pub mod Patterns
pub mod Historic
mod Tests
