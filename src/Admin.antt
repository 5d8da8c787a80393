-- ===== src/Admin.antt =====
-- seekbase/service/admin_service.py: rebuilding the database from the file mirror.
pub mod Replay
pub mod Synced
pub mod Lines
pub mod Marked
pub mod Live
pub mod Deletes
pub mod Inserts
pub mod Rebuild
pub mod History
pub mod Reached
pub mod Whole
