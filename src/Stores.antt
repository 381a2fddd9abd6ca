-- ===== src/Stores.antt =====
-- src/core/stores: the in-memory state store and checkpoint store.
pub mod State
pub mod Checkpoints
