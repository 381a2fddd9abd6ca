-- ===== src/Workflow.antt =====
-- src/core/workflow: workflow definitions and their compiler.
pub mod Registry
pub mod Models
pub mod Compiler
