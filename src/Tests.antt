-- ===== src/Tests.antt =====
-- Runs of the model on small inputs, and the theorems at inputs that meet their conditions.
mod Samples
mod AgentTests
mod CoreutilsTests
mod ServerTests
mod CommandTests
mod PolicyTests
mod ToolTests
mod ClientTests
