-- ===== src/Devices.antt =====
-- The panel's devices: admin-web/src/pages/app/devices.
mod Form
pub mod Saving
