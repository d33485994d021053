-- ===== src/Rollout/Steps.antt =====
-- translateSteps and buildArgoStrategy of internal/controller/agentdeployment_controller.go.
use agentroll.Prelude.{
  Bool, String, ◌<>◌, Option, none, some, List, [], ◌∷◌, ◌++◌, Dict, decimal, any_of, ◌==◌,
  trim_space, trim_percent, is_set, if◌then◌else◌,
}
use agentroll.Float.{Float64, zero_f}
use agentroll.Api.{
  AgentDeployment, AgentDeploymentSpec, RolloutStep, PauseSpec, StepAnalysis, ContainerPort,
  ObservabilitySpec, LangfuseSpec, RollbackSpec,
}
use agentroll.Kube.{CanaryStep, set_weight, pause, analysis, ArgoStrategy, blue_green, canary}

-- managedAnalysisTemplates.
abbrev pub managed_analysis_templates : List String
managed_analysis_templates =
    "agent-quality-check" ∷ "agent-cost-check" ∷ "agent-judge-check" ∷ "agent-tool-check"
    ∷ "agent-memory-check" ∷ []

unfoldable pub is_managed : String → Bool
is_managed name = any_of (λ n. n == name) managed_analysis_templates

abbrev pub default_langfuse_secret : String
default_langfuse_secret = "langfuse-credentials"

abbrev pub default_langfuse_host : String
default_langfuse_host = "https://cloud.langfuse.com"

-- `if spec.Observability != nil { lf = spec.Observability.Langfuse }`.
abbrev pub langfuse_of : Option ObservabilitySpec → Option LangfuseSpec
langfuse_of none = none
langfuse_of (some obs) = obs.langfuse

-- langfuseSecretName.
unfoldable pub langfuse_secret_name : AgentDeploymentSpec → String
langfuse_secret_name spec = elim (langfuse_of spec.observability) [
  | none ↦ default_langfuse_secret
  | some lf ↦ if is_set lf.secret_ref then lf.secret_ref else default_langfuse_secret
]

-- langfuseHost.
unfoldable pub langfuse_host : AgentDeploymentSpec → String
langfuse_host spec = elim (langfuse_of spec.observability) [
  | none ↦ default_langfuse_host
  | some lf ↦ if is_set lf.endpoint then lf.endpoint else default_langfuse_host
]

unfoldable pub first_port_or_8080 : List ContainerPort → String
first_port_or_8080 [] = "8080"
first_port_or_8080 (p ∷ _) = decimal p.container_port

-- "%s.%s" of the prompt's and the model's version.
abbrev pub canary_version : AgentDeploymentSpec → String
canary_version spec = spec.agent_meta.prompt_version <> "." <> spec.agent_meta.model_version

-- `rollback.onCostSpike.threshold`, if there is one.
abbrev pub cost_spike_of : Option RollbackSpec → Option String
cost_spike_of none = none
cost_spike_of (some r) = elim r.on_cost_spike [ none ↦ none | some spike ↦ some spike.threshold ]

unfoldable pub pause_steps : Option PauseSpec → List CanaryStep
pause_steps none = []
pause_steps (some p) = if is_set p.duration then pause p.duration ∷ [] else []

module _ {F : Type 0} ⦃fl : Float64 F⦄ where
  -- parseCostThreshold.
  unfoldable pub parse_cost_threshold : String → F
  parse_cost_threshold threshold = elim (fl.parse (trim_percent (trim_space threshold))) [
    | none ↦ fl.ratio 20 10
    | some pct ↦ if fl.le pct zero_f then fl.ratio 20 10 else fl.div pct (fl.of_nat 100)
  ]

  -- The arguments that a managed template gets.
  unfoldable pub standard_args : AgentDeployment F → Dict String
  standard_args a =
      ("service-name", a.name)
      ∷ ("service-port", first_port_or_8080 a.spec.container.ports)
      ∷ ("namespace", a.namespace)
      ∷ ("canary-version", canary_version a.spec)
      ∷ ("stable-version", a.status.stable_version)
      ∷ []

  unfoldable pub analysis_steps : AgentDeployment F → Option StepAnalysis → List CanaryStep
  analysis_steps a none = []
  analysis_steps a (some s) =
      analysis s.template_ref (if is_managed s.template_ref then standard_args a else []) ∷ []

  -- The body of the loop over spec.rollout.steps.
  unfoldable pub translate_step : AgentDeployment F → RolloutStep → List CanaryStep
  unfolding pause_steps analysis_steps
  translate_step a step =
      set_weight step.set_weight ∷ (pause_steps step.pause ++ analysis_steps a step.analysis)

  unfoldable pub translate_all : AgentDeployment F → List RolloutStep → List CanaryStep
  translate_all a [] = []
  translate_all a (step ∷ steps) = translate_step a step ++ translate_all a steps

  -- The step that spec.rollback.onCostSpike adds.
  unfoldable pub cost_steps : AgentDeployment F → Option String → List CanaryStep
  cost_steps a none = []
  cost_steps a (some threshold) =
      analysis "agent-cost-check" (
        ("canary-version", canary_version a.spec)
        ∷ ("stable-version", a.status.stable_version)
        ∷ ("max-cost-ratio", fl.format "%.2f" (parse_cost_threshold threshold))
        ∷ ("langfuse-secret-name", langfuse_secret_name a.spec)
        ∷ ("langfuse-host", langfuse_host a.spec)
        ∷ [])
      ∷ []

  -- translateSteps.
  unfoldable pub translate_steps : AgentDeployment F → List CanaryStep
  translate_steps a =
      translate_all a a.spec.rollout.steps ++ cost_steps a (cost_spike_of a.spec.rollback)

  -- buildArgoStrategy.
  unfoldable pub build_argo_strategy : AgentDeployment F → ArgoStrategy
  build_argo_strategy a =
      if a.spec.rollout.strategy == "blueGreen" then blue_green else canary (translate_steps a)
