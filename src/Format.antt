-- ===== src/Format.antt =====
-- Numbers, states and kinds that the panel shows as texts and colours: admin-web/src/pages/app/attendance/utils.ts,
-- admin-web/src/pages/app/devices/utils.ts and admin-web/src/pages/app/kpi/utils.ts.
mod Durations
mod Tones
mod Badges
pub mod Exact
