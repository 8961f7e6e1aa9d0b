-- ===== src/Agent.antt =====
-- internal/agent: the bounded agent loop and what it is made of.
pub mod Context
pub mod ToolCall
pub mod Profiles
pub mod Session
pub mod Run
