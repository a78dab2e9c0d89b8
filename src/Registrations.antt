-- ===== src/Registrations.antt =====
-- apps/registrations/: registrations, tickets and check-in.
pub mod Models
pub mod State
pub mod Tickets
pub mod Register
pub mod Cancel
pub mod Qr
pub mod Checkin
pub mod Override
pub mod Linkage
pub mod Capacity
pub mod Admission
pub mod Invariant
pub mod Scanning
pub mod Cancelling
pub mod Registering
