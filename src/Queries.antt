-- ===== src/Queries.antt =====
-- The queries of src/common/view_helpers.cpp over a dependency graph. A loop that runs out of fuel
-- returns `none`.
pub mod Io
pub mod Impact
pub mod Rdeps
pub mod Runs
pub mod Races
pub mod Minimal
mod Tests
