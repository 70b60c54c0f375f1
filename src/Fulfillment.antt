-- ===== src/Fulfillment.antt =====
-- apps/api/internal/fulfillment: shipping the committed reservations of a paid order.
pub mod Model
pub mod Completing
pub mod Service
pub mod Quantities
pub mod Deducting
pub mod Consuming
pub mod Locked
pub mod Outcomes
pub mod Shipped
pub mod Conserving
pub mod Replays
mod Tests
