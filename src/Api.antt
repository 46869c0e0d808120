-- ===== src/Api.antt =====
-- The HTTP clients with their token refresh: admin-web/src/lib/api.ts and mobile/src/api/client.ts
-- (`Machine`), client-web/lib/api.ts (`Pwa`), and the texts that they make of errors (`Message`).
mod Request
mod Machine
mod Pwa
mod Message
pub mod Balance
pub mod Replay
pub mod Final
pub mod PwaLaws
pub mod MessageLaws
mod Tests
