-- ===== src/Evolution.antt =====
-- The self-evolution loop: internal/controller/evolution.go and dspy_optimizer.go.
pub mod Fetch
pub mod Tuner
pub mod Llm
pub mod GitHub
pub mod Failure
pub mod Optimizer
pub mod Upgrader
pub mod Dspy
pub mod Loop
pub mod Numbers
pub mod Triggers
pub mod Permitted
pub mod Approval
pub mod Thresholds
pub mod Plateau
pub mod Record
pub mod Wiring
