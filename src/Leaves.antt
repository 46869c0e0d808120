-- ===== src/Leaves.antt =====
-- The leave requests and balances of the admin panel: admin-web/src/pages/app/leaves/RequestsTab.tsx and
-- BalancesTab.tsx beside it, over the records of admin-web/src/lib/types.ts.
mod Requests
pub mod Ordering
mod Balances
mod BalanceOrder
mod BalanceCards
mod Tests
