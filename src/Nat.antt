-- ===== src/Nat.antt =====
-- The three lambdas of terraform/infra/global/modules/nat/lambda that turn a new instance of a NAT
-- group into the zone's NAT: its address, its route, and its source check.
mod Instance
mod Address
mod Route
mod SourceCheck
mod Zones
mod Upsert
mod Allowed
mod Tests
pub use Zones.{change_route-Routed, assign_address-Assigned}
pub use Upsert.{upsert_routes}
pub use Allowed.{disable_source_check-Disabled}
