-- ===== src/Api/Status.antt =====
-- api/v1alpha1/agentdeployment_types.go: the observed state of an AgentDeployment.
use agentroll.Int.{ℤ}
use agentroll.Prelude.{ℕ, String, Bool, Option, List, Dict}
use agentroll.Api.Spec.{AgentDeploymentSpec}

-- `unset` is the empty text, which a status has before its first update.
pub data AgentDeploymentPhase : Type 0 where
  unset pending progressing stable degraded rolling_back : AgentDeploymentPhase

pub record EvolutionHistoryEntry : Type 0 where
  pub at : ℕ
  pub strategy : String
  pub description : String
  pub phase : AgentDeploymentPhase

pub data QualityTrend : Type 0 where
  improving degrading steady : QualityTrend

pub record OptimizationScorecard (F : Type 0) : Type 0 where
  pub prompt_promotions : ℤ
  pub prompt_rejections : ℤ
  pub tool_promotions : ℤ
  pub tool_rejections : ℤ
  pub quality_trend : QualityTrend
  pub mean_quality_last_7_days : F
  pub regression_detected : Bool
  pub updated_at : ℕ

pub record EvolutionStatus (F : Type 0) : Type 0 where
  pub last_proposal : String
  pub proposal_count : ℤ
  pub last_proposal_at : Option ℕ
  pub next_eval_at : Option ℕ
  pub tuned_thresholds : Dict String
  pub history : List EvolutionHistoryEntry
  pub optimization_generation : ℤ
  pub scorecard : Option (OptimizationScorecard F)
  pub dspy_job_name : String

pub record EvalHistoryEntry (F : Type 0) : Type 0 where
  pub at : ℕ
  pub composite_version : String
  pub quality_score : F
  pub verdict : String

-- The text of the field `outcome`: only these two are ever written.
pub data Outcome : Type 0 where
  promoted rejected : Outcome

pub record PromptLineageEntry (F : Type 0) : Type 0 where
  pub variant_name : String
  pub parent_version : String
  pub hypothesis : String
  pub variant_mean : F
  pub control_mean : F
  pub p_value : F
  pub outcome : Outcome
  pub at : ℕ

pub record ToolLineageEntry (F : Type 0) : Type 0 where
  pub experiment_name : String
  pub additional_tools : List String
  pub removed_tools : List String
  pub hypothesis : String
  pub variant_mean : F
  pub control_mean : F
  pub p_value : F
  pub outcome : Outcome
  pub at : ℕ

pub record MemorySnapshotEntry (F : Type 0) : Type 0 where
  pub at : ℕ
  pub composite_version : String
  pub mean_quality_score : F
  pub sample_count : ℕ

pub record MemoryStatus (F : Type 0) : Type 0 where
  pub last_snapshot_at : Option ℕ
  pub drift_detected : Bool
  pub drift_score : F
  pub snapshots : List (MemorySnapshotEntry F)
  pub last_memory_snapshot_at : Option ℕ
  pub last_memory_snapshot_secret : String
  pub last_memory_snapshot_version : String

pub record Condition : Type 0 where
  pub kind : String
  pub status : Bool
  pub observed_generation : ℕ
  pub reason : String
  pub message : String

pub record AgentDeploymentStatus (F : Type 0) : Type 0 where
  pub phase : AgentDeploymentPhase
  pub stable_version : String
  pub canary_version : String
  pub canary_weight : ℕ
  pub conditions : List Condition
  pub observed_generation : ℕ
  pub evolution : Option (EvolutionStatus F)
  pub eval_history : List (EvalHistoryEntry F)
  pub prompt_lineage : List (PromptLineageEntry F)
  pub tool_lineage : List (ToolLineageEntry F)
  pub memory : Option (MemoryStatus F)

-- The metadata that the controller reads, with the spec and the status. Every object that it
-- addresses is in the agent's own namespace, so a name stands for a namespaced name.
pub record AgentDeployment (F : Type 0) : Type 0 where
  pub name : String
  pub namespace : String
  pub generation : ℕ
  pub deleting : Bool
  pub finalizers : List String
  pub spec : AgentDeploymentSpec
  pub status : AgentDeploymentStatus F
