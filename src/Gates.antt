-- ===== src/Gates.antt =====
-- The simulations of scripts/operations/production_gate_simulations.py: the session with a venue, the
-- keys of an HSM, and the gates that run them.
pub mod Tests
pub mod Session
pub mod Hsm
pub mod Runs
