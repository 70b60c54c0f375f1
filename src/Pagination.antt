-- ===== src/Pagination.antt =====
-- apps/api/internal/pagination: the limits of a page, and the keys of requests.
pub mod Limits
pub use Limits.*
