-- ===== src/Tests.antt =====
-- Concrete data, and the properties at it.
mod Data
mod Reducer
mod Events
mod Workflow
mod Stores
mod Runtime
mod Suspension
mod Tools
mod Executors
mod Agents
mod Llm
mod Memory
mod Assembly
