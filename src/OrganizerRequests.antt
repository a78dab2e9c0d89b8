-- ===== src/OrganizerRequests.antt =====
-- apps/organizer_requests/: users who ask to become organizers, and the review of what they ask.
pub mod Models
pub mod Services
pub mod Pending
pub mod Review
pub mod Primary
