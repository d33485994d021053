-- ===== src/Dependencies.antt =====
-- What an agent waits for before a rollout: other agents, and its MCP tools.
pub mod Agents
pub mod Tools
pub mod Gate
pub mod Endpoints
pub mod Variables
pub mod Unmet
