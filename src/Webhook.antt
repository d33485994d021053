-- ===== src/Webhook.antt =====
-- The admission webhook: api/v1alpha1/agentdeployment_webhook.go. The resource is admitted when
-- the list of errors is empty.
pub mod Admission
pub mod Effect
use agentroll.Prelude.{
  ℕ, ◌+◌, Bool, true, false, not, ◌&&◌, String, ◌<>◌, Option, none, some, List, [], ◌∷◌, ◌++◌,
  decimal, leb, is_set, has_percent, trim_percent, ◌==◌, if◌then◌else◌,
}
use agentroll.Float.{Float64}
use agentroll.Api.{
  AgentDeployment, AgentDeploymentSpec, RollbackSpec, CostSpikeSpec, ScalingSpec, ToolDependency,
  QueueReference,
}

-- field.Invalid with the path, the value and the detail, and field.Required.
pub data FieldError : Type 0 where
  invalid : String → String → String → FieldError
  required : String → String → FieldError

-- `spec.Rollback == nil || spec.Rollback.OnCostSpike == nil`, and else the threshold.
abbrev pub threshold_of : Option RollbackSpec → Option String
threshold_of none = none
threshold_of (some r) = elim r.on_cost_spike [ none ↦ none | some spike ↦ some spike.threshold ]

abbrev pub is_missing : Option QueueReference → Bool
is_missing none = true
is_missing (some _) = false

module _ (F : Type 0) ⦃fl : Float64 F⦄ where
  unfoldable pub check_percentage : String → Option F → List FieldError
  check_percentage threshold none =
      invalid "spec.rollback.onCostSpike.threshold" threshold
        "must be a numeric percentage, e.g. \"200%\""
      ∷ []
  check_percentage threshold (some val) =
      if fl.le val (fl.of_nat 100)
      then invalid "spec.rollback.onCostSpike.threshold" threshold
          "must be greater than 100% to represent a meaningful cost spike threshold"
        ∷ []
      else []

  unfoldable pub check_threshold : Option String → List FieldError
  check_threshold none = []
  check_threshold (some threshold) =
      if has_percent threshold
      then check_percentage threshold (fl.parse (trim_percent threshold))
      else invalid "spec.rollback.onCostSpike.threshold" threshold
          "must be a percentage string, e.g. \"200%\""
        ∷ []

  -- validateCostSpike.
  unfoldable pub validate_cost_spike : AgentDeploymentSpec → List FieldError
  validate_cost_spike spec = check_threshold (threshold_of spec.rollback)

unfoldable pub check_scaling : Option ScalingSpec → List FieldError
check_scaling none = []
check_scaling (some s) =
    (if leb s.max_replicas s.min_replicas
      then invalid "spec.scaling.maxReplicas" (decimal s.max_replicas)
          ("must be greater than minReplicas (" <> decimal s.min_replicas <> ")")
        ∷ []
      else [])
    ++ (if s.metric == "queue-depth" && is_missing s.queue_ref
        then required "spec.scaling.queueRef" "queueRef is required when metric is \"queue-depth\""
          ∷ []
        else [])

-- validateScaling.
unfoldable pub validate_scaling : AgentDeploymentSpec → List FieldError
validate_scaling spec = check_scaling spec.scaling

-- `constraint_error` is the error text of semver.NewConstraint, `none` where it succeeds.
module _ (constraint_error : String → Option String) where
  unfoldable pub check_version : ℕ → ToolDependency → List FieldError
  check_version i td =
      if is_set td.version
      then elim (constraint_error td.version) [
        | none ↦ []
        | some reason ↦
            invalid ("spec.agentMeta.toolDependencies[" <> decimal i <> "].version") td.version
              ("invalid semver constraint: " <> reason)
            ∷ []
      ]
      else []

  unfoldable pub check_versions : ℕ → List ToolDependency → List FieldError
  check_versions i [] = []
  check_versions i (td ∷ tools) = check_version i td ++ check_versions (i + 1) tools

  -- validateToolDependencies.
  unfoldable pub validate_tool_dependencies : AgentDeploymentSpec → List FieldError
  validate_tool_dependencies spec = check_versions 0 spec.agent_meta.tool_dependencies

unfoldable pub check_dependencies : String → ℕ → List String → List FieldError
check_dependencies name i [] = []
check_dependencies name i (dep ∷ deps) =
    (if dep == name
      then invalid ("spec.dependsOn[" <> decimal i <> "]") dep
          "an AgentDeployment cannot depend on itself"
        ∷ []
      else [])
    ++ check_dependencies name (i + 1) deps

-- validateDependsOn.
unfoldable pub validate_depends_on : String → AgentDeploymentSpec → List FieldError
validate_depends_on name spec = check_dependencies name 0 spec.depends_on

module _ (F : Type 0) ⦃fl : Float64 F⦄ (constraint_error : String → Option String) where
  -- validateAgentDeploymentSpec.
  unfoldable pub validate_agent_deployment_spec : String → AgentDeploymentSpec → List FieldError
  validate_agent_deployment_spec name spec =
      validate_cost_spike F spec
      ++ validate_scaling spec
      ++ validate_tool_dependencies constraint_error spec
      ++ validate_depends_on name spec

  -- The methods of AgentDeploymentCustomValidator; none of them warns.
  unfoldable pub validate_create : AgentDeployment F → List FieldError
  validate_create a = validate_agent_deployment_spec a.name a.spec

  unfoldable pub validate_update : AgentDeployment F → AgentDeployment F → List FieldError
  validate_update old a = validate_agent_deployment_spec a.name a.spec

  unfoldable pub validate_delete : AgentDeployment F → List FieldError
  validate_delete a = []
