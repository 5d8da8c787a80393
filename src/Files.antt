-- ===== src/Files.antt =====
-- seekbase/service/file_service.py: the file mirror.
pub mod Mirror
pub mod Append
pub mod Disk
pub mod Stands
pub mod Torn
