-- ===== src/Memory.antt =====
-- The memory of an agent: its quality over time (internal/controller/memory_lifecycle.go) and the copies
-- of the memory of its backend (internal/controller/memory_backend.go).
pub mod Lifecycle
pub mod Mem0
pub mod Backend
pub mod Phases
pub mod Edges
pub mod Snapshots
pub mod Restore
