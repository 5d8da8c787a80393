-- ===== src/Pipeline.antt =====
-- seekbase/service/pipeline_service.py: the pipeline compiler.
pub mod Split
pub mod Stage
pub mod Fuse
pub mod Query
pub mod Rejoin
pub mod Allowed
pub mod Shape
