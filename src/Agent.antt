-- ===== src/Agent.antt =====
-- The agent of src/core/agent.cpp: from a model's answer to tool calls, their execution, and the loop
-- around both.
pub mod Json
pub mod Types
pub mod Recover
pub mod Params
pub mod Calls
pub mod Tools
pub mod History
pub mod Intent
pub mod Round
pub mod Run
