-- ===== src/Rollout/Templates.antt =====
-- reconcileAnalysisTemplate and the specs of the two templates that it manages
-- (internal/controller/agentdeployment_controller.go).
pub mod Managed
pub mod Applied
