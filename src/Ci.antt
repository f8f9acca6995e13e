-- ===== src/Ci.antt =====
-- .github/scripts/ci/select-checks.py: which CI gates a change needs, and the check that each needed
-- one has run.
pub mod FilePath
mod Classify
mod Diff
mod Select
mod Enforce
mod Union
mod History
mod Exempt
mod Honest
mod Tests
pub use Union.*
pub use Exempt.*
pub use Honest.*
