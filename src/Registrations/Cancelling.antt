-- ===== src/Registrations/Cancelling.antt =====
-- What cancelling a registration does (apps/registrations/services.py,
-- `cancel_event_registration`): the proofs.
pub mod Consistency
