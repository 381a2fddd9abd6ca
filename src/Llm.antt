-- ===== src/Llm.antt =====
-- src/core/llm: providers and profiles of language models, and the routing of requests to them.
pub mod Models
pub mod Registry
pub mod Invoker
