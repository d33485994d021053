-- ===== src/Evaluation.antt =====
-- The continuous evaluation of an agent: the three analysis templates that test a canary (the judge of
-- internal/controller/evaluation.go, tool_check_template.go and memory_check_template.go), and the
-- scores that come back from Langfuse.
pub mod Templates
pub mod Scores
pub mod Dedup
pub mod Comments
