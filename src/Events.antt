-- ===== src/Events.antt =====
-- apps/events/: events, their organizers, and what the public sees of them.
pub mod Models
pub mod Access
pub mod Input
pub mod Editing
pub mod Organizing
pub mod Publishing
