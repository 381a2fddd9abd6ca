-- ===== src/Memory.antt =====
-- src/core/memory: memory behind a policy.
pub mod Policy
