-- ===== src/Experiment.antt =====
-- The two A/B experiments: internal/controller/prompt_experiment.go and tool_experiment.go.
pub mod Decide
pub mod Prompt
pub mod Tool
pub mod Evidence
pub mod Legal
pub mod ToolLegal
pub mod Record
pub mod Progress
pub mod Single
pub mod Store
pub mod Once
