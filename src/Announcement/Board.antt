-- ===== src/Announcement/Board.antt =====
-- The table of announcements (backend/internal/announcement/service.go).
pub mod Rows
pub mod Calls
pub mod Sequence
