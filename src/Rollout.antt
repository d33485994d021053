-- ===== src/Rollout.antt =====
-- What a pass writes into the Argo Rollout: the canary steps, the versions and labels, the pod, and the
-- AnalysisTemplates beside it.
pub mod Steps
pub mod Version
pub mod Pod
pub mod Templates
pub mod Weights
pub mod Resources
pub mod Selection
pub mod Scaling
pub mod Telemetry
