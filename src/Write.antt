-- ===== src/Write.antt =====
-- seekbase/service/write_service.py: the write use cases.
pub mod Execute
pub mod Batch
pub mod Keeps
pub mod Past
pub mod Worker
pub mod Serial
pub mod Closing
