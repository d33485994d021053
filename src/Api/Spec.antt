-- ===== src/Api/Spec.antt =====
-- api/v1alpha1/agentdeployment_types.go: the desired state of an AgentDeployment.
use agentroll.Prelude.{ℕ, String, Bool, Option, List, Dict}

-- The parts of k8s.io/api/core/v1 that the spec carries.
pub data EnvSource : Type 0 where
  literal : String → EnvSource
  secret_key : String → String → EnvSource
  -- the ConfigMap, the key, and whether it may be missing
  config_map_key : String → String → Bool → EnvSource

pub record EnvVar : Type 0 where
  pub name : String
  pub value : EnvSource

pub record ContainerPort : Type 0 where
  pub name : String
  pub container_port : ℕ
  pub protocol : String

pub record ResourceRequirements : Type 0 where
  pub requests : Dict String
  pub limits : Dict String

pub record AgentContainerSpec : Type 0 where
  pub image : String
  pub env : List EnvVar
  pub resources : Option ResourceRequirements
  pub ports : List ContainerPort
  pub command : List String
  pub args : List String

pub record ToolDependency : Type 0 where
  pub name : String
  pub version : String
  pub endpoint : String

pub record AgentMetaSpec : Type 0 where
  pub prompt_version : String
  pub model_version : String
  pub model_provider : String
  pub tool_dependencies : List ToolDependency
  pub labels : Dict String

pub record PauseSpec : Type 0 where
  pub duration : String

pub record StepAnalysis : Type 0 where
  pub template_ref : String

pub record RolloutStep : Type 0 where
  pub set_weight : ℕ
  pub pause : Option PauseSpec
  pub analysis : Option StepAnalysis

pub record RolloutSpec : Type 0 where
  pub strategy : String
  pub steps : List RolloutStep

pub record CostSpikeSpec : Type 0 where
  pub threshold : String

pub record RollbackSpec : Type 0 where
  pub on_failed_analysis : Bool
  pub on_cost_spike : Option CostSpikeSpec

pub record LangfuseSpec : Type 0 where
  pub endpoint : String
  pub project_id : String
  pub secret_ref : String

pub record OTelSpec : Type 0 where
  pub enabled : Bool
  pub collector_endpoint : String

pub record ObservabilitySpec : Type 0 where
  pub langfuse : Option LangfuseSpec
  pub open_telemetry : Option OTelSpec

pub record QueueReference : Type 0 where
  pub provider : String
  pub address : String
  pub queue_name : String

pub record ScalingSpec : Type 0 where
  pub min_replicas : ℕ
  pub max_replicas : ℕ
  pub metric : String
  pub target_value : ℕ
  pub queue_ref : Option QueueReference

pub record EvolutionOptimizerSpec : Type 0 where
  pub model : String
  pub provider : String
  pub secret_ref : String
  pub mode : String

pub record GitHubSpec : Type 0 where
  pub owner : String
  pub repo : String
  pub base_branch : String
  pub secret_ref : String

pub record HumanApprovalSpec : Type 0 where
  pub git_hub : Option GitHubSpec

pub record EvolutionSpec : Type 0 where
  pub enabled : Bool
  pub strategy : String
  pub trigger : String
  pub schedule : String
  pub consecutive_canaries_for_plateau : Option ℕ
  pub optimizer : Option EvolutionOptimizerSpec
  pub human_approval : Option HumanApprovalSpec
  pub prompt_config_map : String
  pub prompt_experiment : String
  pub prompt_experiment_min_samples : Option ℕ
  pub tool_experiment : String
  pub tool_experiment_min_samples : Option ℕ

pub record EvaluationSpec : Type 0 where
  pub secret_ref : String
  pub judge_model : String
  pub judge_provider : String
  pub min_score : String
  pub config_map : String

pub record MemoryBackendSpec : Type 0 where
  pub endpoint : String
  pub secret_ref : String
  pub session_id : String

pub record MemorySpec : Type 0 where
  pub snapshot_enabled : Bool
  pub snapshot_interval_minutes : Option ℕ
  pub max_snapshots : Option ℕ
  pub drift_threshold : Option String
  pub rollback_on_drift : Bool
  pub backend : Option MemoryBackendSpec
  pub snapshot_on_promotion : Bool
  pub rollback_memory_on_canary_fail : Bool

pub record AgentDeploymentSpec : Type 0 where
  pub container : AgentContainerSpec
  pub agent_meta : AgentMetaSpec
  pub rollout : RolloutSpec
  pub rollback : Option RollbackSpec
  pub observability : Option ObservabilitySpec
  pub scaling : Option ScalingSpec
  pub service_account_name : String
  pub replicas : Option ℕ
  pub depends_on : List String
  pub evolution : Option EvolutionSpec
  pub evaluation : Option EvaluationSpec
  pub memory : Option MemorySpec
