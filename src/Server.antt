-- ===== src/Server.antt =====
-- The HTTP and MCP server: internal/server.
pub mod Limiter
pub mod Access
pub mod Judgements
pub mod Candidates
pub mod Tools
pub mod Http
pub mod ClientIp
pub mod Worker
pub mod Evaluations
pub mod Memories
