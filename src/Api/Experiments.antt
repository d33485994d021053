-- ===== src/Api/Experiments.antt =====
-- api/v1alpha1/promptvariant_types.go and toolexperiment_types.go: the two kinds of A/B experiment.
-- Their phases have the same texts, and their statuses the same fields.
use agentroll.Prelude.{ℕ, String, Option, List}
use agentroll.Api.Spec.{ToolDependency}

-- `unset` is the empty text, which the controller treats as Pending.
pub data ExperimentPhase : Type 0 where
  unset pending testing promoted rejected : ExperimentPhase

pub record PromptVariantSpec : Type 0 where
  pub agent_deployment_ref : String
  pub system_prompt : String
  pub parent_version : String
  pub hypothesis : String

pub record ExperimentStatus (F : Type 0) : Type 0 where
  pub phase : ExperimentPhase
  pub experiment_started_at : Option ℕ
  pub variant_scores : List F
  pub variant_mean_score : F
  pub control_mean_score : F
  pub p_value : F
  pub message : String
  pub promoted_at : Option ℕ
  pub rejected_at : Option ℕ

pub record PromptVariant (F : Type 0) : Type 0 where
  pub name : String
  pub namespace : String
  pub spec : PromptVariantSpec
  pub status : ExperimentStatus F

pub record ToolExperimentSpec : Type 0 where
  pub agent_deployment_ref : String
  pub additional_tools : List ToolDependency
  pub removed_tools : List String
  pub parent_tools_hash : String
  pub hypothesis : String

abbrev pub ToolExperimentStatus : Type 0 → Type 0
ToolExperimentStatus F = ExperimentStatus F

pub record ToolExperiment (F : Type 0) : Type 0 where
  pub name : String
  pub namespace : String
  pub spec : ToolExperimentSpec
  pub status : ToolExperimentStatus F
