-- ===== src/Queue.antt =====
-- The offline queue of check-ins: client-web/lib/offline-queue.ts, and the submission that fills it,
-- `submitMut` of client-web/app/(app)/today/page.tsx. `Store` is the object store of the browser
-- with the transactions of the source; `Flush` replays it; `Submit` is the page's side.
mod Store
mod Flush
mod Submit
pub mod Order
pub mod Attempts
pub mod NoLoss
pub mod Account
pub mod Stale
mod Tests
