-- ===== src/Events.antt =====
-- src/core/events: the events of a run, the in-memory store (src/core/stores/memory_event_store.py)
-- and the emitter that numbers them.
pub mod Models
pub mod Store
pub mod Order
pub mod Batch
pub mod Emitter
pub mod Numbering
pub mod Stream
pub mod Reading
