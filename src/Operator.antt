-- ===== src/Operator.antt =====
-- seekbase/operator: the pipeline operators, their registry and the policy.
pub mod Base
pub mod Policy
pub mod Registry
pub mod Builtins
pub mod Lookup
