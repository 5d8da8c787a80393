-- ===== src/Streams.antt =====
-- seekbase/service/stream_service.py: streaming ingestion.
pub mod Reader
pub mod Compile
pub mod Lines
pub mod Run
pub mod Covered
pub mod Landed
pub mod Table
pub mod Handles
pub mod Closing
