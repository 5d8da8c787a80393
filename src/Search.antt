-- ===== src/Search.antt =====
-- seekbase/service/store_service.py: the texts of SQL that the store assembles.
pub mod Names
pub mod Statements
pub mod Lower
pub mod Bound
pub mod Marks
pub mod Writes
pub mod Values
pub mod Prepare
