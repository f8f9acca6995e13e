-- ===== src/Qualification.antt =====
-- The finalizer of release qualifications, scripts/qualification/finalizer.py.
mod Schema
mod Checks
mod Finalizer
mod Agreement
mod Candidate
mod Stored
mod Qualified
mod Steady
mod Again
mod Memory
mod Tests
