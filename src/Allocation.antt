-- ===== src/Allocation.antt =====
-- The allocation engine of apps/api/internal/allocation.
pub mod Model
pub mod Score
pub mod Engine
pub mod Remaining
pub mod Decisions
pub mod Greedy
pub mod Grouping
pub mod Single
pub mod Request
pub mod Keys
pub mod Lacking
pub mod Correct
pub mod Supply
pub mod Rounds
pub mod Complete
pub mod Provenance
mod Tests
