-- ===== src/Runtime.antt =====
-- The runtime service (src/core/runtime/runtime_service.py).
pub mod Monad
pub mod Context
pub mod Lists
pub mod Store
pub mod Outcome
pub mod Marks
pub mod Nodes
pub mod Rounds
pub mod Keys
pub mod Rest
pub mod Service
