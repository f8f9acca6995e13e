-- ===== src/ScaleDown.antt =====
-- terraform/infra/apps/fargate/lambda/scale_down_old_color.py: after a blue/green switch the service
-- that the listener no longer points to is scaled down to zero, and the rule that fired is removed.
mod Handler
mod Safety
mod Tests
pub use Safety.*
