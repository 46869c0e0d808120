-- ===== src/Kiosk.antt =====
-- The kiosk's scan screen: kiosk-web/src/pages/MainPage.tsx, with the records of
-- kiosk-web/src/lib/types.ts that it reads. `Screen` holds the state and the handlers, `Machine`
-- puts them together as one step function over the events that the page can see.
mod Types
mod Screen
mod Machine
mod Valid
pub mod Loop
pub mod Cooldown
mod Rounds
pub mod Rejection
pub mod Manual
mod Tests
