-- ===== src/Recovery.antt =====
-- scripts/recovery: the journal that puts its evidence down before each change of a resource, and
-- its controllers.
pub mod Exact
mod Ports
mod Intent
mod Journal
mod Run
mod Stable
mod Reads
mod Once
mod Effects
mod Runs
mod Sequences
mod Entries
mod Retry
mod Applied
mod Seen
mod Receipts
mod Answers
mod Switch
mod Freshness
mod NatContext
mod NatActions
mod NatControl
mod NatFinal
mod Snapshot
mod CleanupPlan
mod Cleanup
mod Controllers
mod Memory
mod Tests
mod RetryTests
