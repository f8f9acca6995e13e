-- ===== src/Mutation.antt =====
-- scripts/environment_mutation.py: protected, non-expiring ownership of an environment's mutations.
-- One object per conflict domain says which invocation owns the domain; every worker goes through
-- compare-and-swap writes of that object.
pub mod Domain
pub mod Document
pub mod Validate
pub mod Validity
pub mod Roundtrip
pub mod Store
pub mod Authority
pub mod Session
pub mod Client
pub mod Sending
pub mod Admission
pub mod Holding
pub mod Acquire
pub mod Protocol
pub mod Tests
mod SendingTests
