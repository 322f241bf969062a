-- ===== src/Gateway.antt =====
-- internal/gateway: the proxy that serves the features of many upstream MCP servers as one server.
pub mod Secrets
pub mod Router
pub mod Tools
pub mod Features
pub mod Scopes
pub mod Search
pub mod Registry
pub mod ToolSync
pub mod Reload
pub mod Config
pub mod Names
pub mod Identical
pub mod Drain
