-- ===== src/Slugs.antt =====
-- The address part of a company: `slugify`, `uniqueSlug` and the two inputs that use them, in
-- admin-web/src/pages/owner/companies/CompanyForm.tsx.
pub mod Text
mod Field
pub mod Shape
pub mod Fresh
pub mod Typing
mod Tests
