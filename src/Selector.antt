-- ===== src/Selector.antt =====
-- `DefaultStateSelector` (src/core/state/selectors.py): node inputs, ready nodes, terminal
-- conditions.
pub mod Paths
pub mod Inputs
pub mod Ready
