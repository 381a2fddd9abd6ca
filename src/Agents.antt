-- ===== src/Agents.antt =====
-- src/core/agents: the bindings that a run carries.
pub mod Bindings
pub mod Models
pub mod Registry
pub mod Resolver
