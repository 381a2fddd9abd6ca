-- ===== src/Executors.antt =====
-- src/core/executors: how a node is executed.
pub mod Conditions
pub mod Requests
pub mod Flow
pub mod Basic
pub mod Tool
pub mod Agent
pub mod Together
