-- ===== src/Payment.antt =====
-- apps/api/internal/payment: payments of orders, at a provider that tells of them by events.
pub mod Model
pub mod Aggregate
pub mod Creating
pub mod Checkout
pub mod Retries
pub mod Accepting
pub mod Events
pub mod Verdicts
pub mod Covering
pub mod Changing
pub mod Paying
pub mod Retrying
pub mod Succeeding
pub mod Coverage
mod Tests
