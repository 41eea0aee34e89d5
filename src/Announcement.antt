-- ===== src/Announcement.antt =====
-- The announcements of a building (backend/internal/announcement).
pub mod Model
pub mod Repository
pub mod Reads
pub mod Input
pub mod Service
pub mod Targets
pub mod Marking
pub mod Floors
pub mod Validity
pub mod Payload
pub mod Board
mod Tests
