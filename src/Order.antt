-- ===== src/Order.antt =====
-- The orders of apps/api/internal/order.
pub mod Model
pub mod Reading
pub mod Pricing
pub mod Placing
pub mod Creating
pub mod Cancelling
pub mod Automatic
pub mod Service
pub mod Stocking
pub mod Placed
pub mod Filled
pub mod Coverage
pub mod Reserving
pub mod Exact
pub mod Itemized
pub mod Replays
pub mod Closing
mod Tests
