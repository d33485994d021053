-- ===== src/Tests.antt =====
-- Concrete inputs on which the theorems are applied.
pub mod Samples
pub mod Experiments
pub mod Rollouts
pub mod Histories
pub mod Admissions
pub mod Memories
pub mod Passes
pub mod Evolutions
pub mod Evaluations
pub mod Startups
