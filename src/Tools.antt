-- ===== src/Tools.antt =====
-- src/core/tools and src/core/policies: the descriptors of tools, their registry, and the policy
-- that stands before a tool.
pub mod Models
pub mod Registry
pub mod Policy
pub mod Static
