-- ===== src/McpServer.antt =====
-- internal/mcpserver: the tool server.
pub mod Workspace
pub mod Tools
pub mod Server
