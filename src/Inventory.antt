-- ===== src/Inventory.antt =====
-- Stock levels and reservations (apps/api/internal/inventory).
pub mod Repository
pub mod Adjust
pub mod Reserving
pub mod Releasing
pub mod Outcomes
pub mod Adjusting
pub mod Refusals
pub mod Policy
pub mod Recommend
pub mod Replenishing
pub mod Service
pub mod Guards
mod Tests
