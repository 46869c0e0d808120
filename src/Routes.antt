-- ===== src/Routes.antt =====
-- The panel's routes, their guards, the menus and the sign-in: admin-web/src/App.tsx,
-- admin-web/src/components/ProtectedRoute.tsx, admin-web/src/components/Layout.tsx and
-- admin-web/src/pages/LoginPage.tsx.
mod Table
mod Guard
mod Guarded
mod Steps
pub mod Landing
mod Menu
pub mod Menus
mod Login
pub mod SignIn
mod Router
mod Tests
