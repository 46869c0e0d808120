-- ===== src/Ws.antt =====
-- The admin panel's reconnecting WebSocket, `AdminWS` of admin-web/src/lib/ws.ts.
mod Machine
pub mod Lifetime
pub mod Delivery
mod Tests
