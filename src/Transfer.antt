-- ===== src/Transfer.antt =====
-- Transfers of stock between warehouses (apps/api/internal/transfer).
pub mod Reading
pub mod Creating
pub mod Shipping
pub mod Moving
pub mod Outcomes
pub mod Sources
pub mod Coverage
pub mod Amounts
pub mod Marking
pub mod Loops
pub mod Conserving
pub mod States
pub mod Replays
pub mod Rereading
pub mod Redelivery
pub mod Repeats
pub mod Service
pub mod Checks
mod Tests
