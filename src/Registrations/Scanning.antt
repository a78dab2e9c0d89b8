-- ===== src/Registrations/Scanning.antt =====
-- What a scan does (apps/registrations/services.py, `process_checkin_scan`): the proofs.
pub mod Found
pub mod Signatures
pub mod Tokens
pub mod Verdicts
pub mod Consistency
pub mod Outcome
