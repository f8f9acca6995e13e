-- ===== src/DevDown.antt =====
-- scripts/lifecycle/dev_down.py: the consent to take dev down with its data, and the review of the
-- saved plan that would do it.
pub mod Consent
mod Review
mod Consented
mod Lines
mod Summary
mod Current
mod Tests
