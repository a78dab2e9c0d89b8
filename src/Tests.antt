-- ===== src/Tests.antt =====
-- Tests and witnesses: the theorems applied at concrete tables.
mod Accounting
mod Auditing
mod Opening
mod Overriding
pub mod Codec
mod Caches
pub mod Data
pub mod Requests
mod Scans
mod Registering
mod Races
pub mod Dispatching
pub mod Organizers
mod HelpDesk
mod Organizing
mod Administering
mod Inboxes
