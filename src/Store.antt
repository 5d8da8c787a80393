-- ===== src/Store.antt =====
-- seekbase/service/store_service.py: the rows of the business tables.
pub mod Rows
pub mod Visible
pub mod Validate
pub mod Change
pub mod Plan
pub mod Insert
pub mod Fresh
pub mod Unhindered
pub mod Jsonl
pub mod Chain
pub mod Fused
