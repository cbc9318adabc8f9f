-- ===== src/Contracts.antt =====
-- tools/eks-assessment/src/assessment_contracts.py: the validation of a value against a schema
-- (Schema), and of the artifacts of a collection (Collection).
pub mod Schema
pub mod Collection
mod Examples
