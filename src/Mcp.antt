-- ===== src/Mcp.antt =====
-- The router of MCP requests (mcp_routing).
pub mod Router
