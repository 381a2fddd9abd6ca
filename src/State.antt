-- ===== src/State.antt =====
-- src/core/state: the records of the runtime, their validation, and the reducer.
pub mod Models
pub mod Patch
pub mod Dataclass
pub mod Validation
pub mod Reducer
