-- ===== src/Registrations/Registering.antt =====
-- What registering for an event does (apps/registrations/services.py,
-- `create_event_registration`): the proofs.
pub mod Issuing
pub mod Enrolling
pub mod Consistency
pub mod Ticketing
pub mod Outcome
