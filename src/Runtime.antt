-- ===== src/Runtime.antt =====
-- seekbase/runtime/: the pool of read cursors.
pub mod Pool
pub mod Exclusive
