-- ===== src/Readiness.antt =====
-- scripts/nat/reliability.py: the bounded verification that a NAT instance is ready.
mod Observed
mod Assess
mod Fresh
mod Tests
pub use Fresh.*
