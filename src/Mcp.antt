-- ===== src/Mcp.antt =====
-- internal/infrastructure/service/mcp: the tools of other servers.
pub mod Policy
