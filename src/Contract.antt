-- ===== src/Contract.antt =====
-- scripts/lifecycle/contract.py: the requests that change an environment's infrastructure, the
-- configuration that authorizes one, and the check of the saved Terraform plan that it runs.
pub mod Request
mod Quiescent
pub mod Authorize
pub mod Plan
pub mod Bootstrap
pub mod Resource
pub mod Accepted
mod Drift
mod Teardown
pub mod Authorized
mod Tests
pub use Teardown.*
pub use Authorized.*
