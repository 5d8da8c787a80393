-- ===== src/Schema.antt =====
-- seekbase/schema.py and seekbase/struct/schema.py: a declared SCHEMA, parsed and validated.
pub mod Types
pub mod Data
pub mod Parse
pub mod WellFormed
pub mod Decimals
pub mod Find
pub mod Accepts
