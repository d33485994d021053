-- ===== src/History.antt =====
-- The ring buffers of the status: appendEvalHistory (internal/controller/evaluation.go),
-- appendPromptLineage (prompt_experiment.go), appendToolLineage (tool_experiment.go),
-- appendEvolutionHistory (evolution.go) and appendMemorySnapshot (memory_lifecycle.go).
pub mod Bounds
use agentroll.Prelude.{
  ℕ, ◌+◌, ◌-◌, List, [], ◌∷◌, ◌++◌, length, drop, ltb, if◌then◌else◌, Bool, some, none,
}
use agentroll.Api.{
  AgentDeploymentStatus, EvalHistoryEntry, PromptLineageEntry, ToolLineageEntry, EvolutionStatus,
  EvolutionHistoryEntry, MemoryStatus, MemorySnapshotEntry,
}

abbrev pub max_eval_history : ℕ
max_eval_history = 50

abbrev pub max_prompt_lineage : ℕ
max_prompt_lineage = 20

abbrev pub max_tool_lineage : ℕ
max_tool_lineage = 20

abbrev pub max_evolution_history : ℕ
max_evolution_history = 20

-- `xs = append(xs, x); if len(xs) > max { xs = xs[len(xs)-max:] }`.
unfoldable pub append_capped {ℓ} : {A : Type ℓ} → ℕ → List A → A → List A
append_capped cap xs x =
    let ys = xs ++ x ∷ [] in if ltb cap (length ys) then drop (length ys - cap) ys else ys

module _ {F : Type 0} where
  unfoldable pub append_eval_history :
      AgentDeploymentStatus F → EvalHistoryEntry F → AgentDeploymentStatus F
  append_eval_history status entry = record status {
    eval_history = append_capped max_eval_history status.eval_history entry;
  }

  unfoldable pub append_prompt_lineage :
      AgentDeploymentStatus F → PromptLineageEntry F → AgentDeploymentStatus F
  append_prompt_lineage status entry = record status {
    prompt_lineage = append_capped max_prompt_lineage status.prompt_lineage entry;
  }

  unfoldable pub append_tool_lineage :
      AgentDeploymentStatus F → ToolLineageEntry F → AgentDeploymentStatus F
  append_tool_lineage status entry = record status {
    tool_lineage = append_capped max_tool_lineage status.tool_lineage entry;
  }

  unfoldable pub append_evolution_history :
      EvolutionStatus F → EvolutionHistoryEntry → EvolutionStatus F
  append_evolution_history st entry = record st {
    history = append_capped max_evolution_history st.history entry;
  }

  unfoldable pub append_memory_snapshot :
      MemoryStatus F → MemorySnapshotEntry F → ℕ → MemoryStatus F
  append_memory_snapshot ms entry max_snapshots = record ms {
    snapshots = append_capped max_snapshots ms.snapshots entry;
  }
