-- ===== src/Rollout/Templates/Managed.antt =====
-- reconcileAnalysisTemplate, buildManagedTemplateSpec and the Job specs of agent-quality-check and
-- agent-cost-check (internal/controller/agentdeployment_controller.go).
use agentroll.Prelude.{
  Bool, true, false, not, String, ◌<>◌, Option, none, some, List, [], ◌∷◌, ◌++◌, Dict, lookup,
  is_set, any_of, ◌==◌, if◌then◌else◌,
}
use agentroll.Api.{RolloutStep, EnvVar, EnvSource, EvolutionStatus}
use agentroll.Kube.{
  Env, Result, ok, err, Kind, apply_template, AnalysisTemplate, TemplateArgument, TemplateSpec,
}
use agentroll.Kube.Exec.{Exec, pure, gets, try, wrapping, perform, ask, ◌>>=◌, ◌>>◌}
use agentroll.Rollout.Steps.{is_managed, default_langfuse_host, default_langfuse_secret}
use agentroll.Rollout.Pod.{var_of}

abbrev pub required_arg : String → TemplateArgument
required_arg name = record { name = name; value = none }

abbrev pub default_arg : String → String → TemplateArgument
default_arg name value = record { name = name; value = some value }

-- "http://{{args.service-name}}.{{args.namespace}}.svc:{{args.service-port}}".
abbrev pub service_url : String
service_url = "http://{{args.service-name}}.{{args.namespace}}.svc:{{args.service-port}}"

-- `tuned[key]` when it is present and not empty.
unfoldable pub tuned_value : Dict String → String → Option String
tuned_value tuned key = elim (lookup key tuned) [
  | none ↦ none
  | some v ↦ if is_set v then some v else none
]

-- tunedOrDefault.
unfoldable pub tuned_or_default : Dict String → String → String → String
tuned_or_default tuned key fallback = elim (tuned_value tuned key) [ none ↦ fallback | some v ↦ v ]

-- `if v, ok := tuned[key]; ok && v != "" { env = append(env, …) }`.
unfoldable pub tuned_env : Dict String → String → String → List EnvVar
tuned_env tuned key name = elim (tuned_value tuned key) [ none ↦ [] | some v ↦ var_of name v ∷ [] ]

-- The variables of qualityJobSpec.
abbrev quality_check_env : Dict String → List EnvVar
quality_check_env tuned =
    (var_of "AGENT_SERVICE_URL" service_url
      ∷ var_of "MAX_LATENCY_MS" (tuned_or_default tuned "max_latency_ms" "10000")
      ∷ var_of "MIN_RESPONSE_LEN" (tuned_or_default tuned "min_response_len" "50")
      ∷ [])
    ++ tuned_env tuned "min_tool_calls" "MIN_TOOL_CALLS"

-- qualityCheckTemplateSpec.
unfoldable pub quality_check_template_spec : Dict String → TemplateSpec
quality_check_template_spec tuned = record {
  args =
      required_arg "service-name"
      ∷ default_arg "service-port" "8080"
      ∷ required_arg "namespace"
      ∷ [];
  metric = "agent-health";
  interval = "";
  count = none;
  failure_limit = none;
  container = "analysis";
  image = "agentroll-analysis:v1";
  env = quality_check_env tuned;
}

abbrev secret_var : String → String → EnvVar
secret_var name key = record {
  name = name;
  value = EnvSource.secret_key "{{args.langfuse-secret-name}}" key;
}

-- The variables of costCheckJobSpec.
abbrev cost_check_env : Dict String → List EnvVar
cost_check_env tuned =
    (var_of "LANGFUSE_HOST" "{{args.langfuse-host}}"
      ∷ secret_var "LANGFUSE_PUBLIC_KEY" "public-key"
      ∷ secret_var "LANGFUSE_SECRET_KEY" "secret-key"
      ∷ var_of "CANARY_VERSION" "{{args.canary-version}}"
      ∷ var_of "STABLE_VERSION" "{{args.stable-version}}"
      ∷ var_of "METRIC" "token_cost_ratio"
      ∷ var_of "MAX_COST_RATIO" "{{args.max-cost-ratio}}"
      ∷ var_of "TIME_WINDOW_MINUTES" "{{args.time-window-minutes}}"
      ∷ var_of "MIN_TRACES" "{{args.min-traces}}"
      ∷ [])
    ++ (tuned_env tuned "min_success_rate" "MIN_SUCCESS_RATE"
        ++ tuned_env tuned "max_hallucination_rate" "MAX_HALLUCINATION_RATE")

-- costCheckTemplateSpec.
unfoldable pub cost_check_template_spec : Dict String → TemplateSpec
cost_check_template_spec tuned = record {
  args =
      required_arg "canary-version"
      ∷ required_arg "stable-version"
      ∷ default_arg "max-cost-ratio" "2.0"
      ∷ default_arg "langfuse-host" default_langfuse_host
      ∷ default_arg "langfuse-secret-name" default_langfuse_secret
      ∷ default_arg "time-window-minutes" "10"
      ∷ default_arg "min-traces" "5"
      ∷ [];
  metric = "token-cost-ratio";
  interval = "2m";
  count = some 3;
  failure_limit = some 1;
  container = "cost-checker";
  image = "ghcr.io/agentroll/langfuse-metrics:v1";
  env = cost_check_env tuned;
}

-- buildManagedTemplateSpec.
unfoldable pub build_managed_template_spec : String → Dict String → TemplateSpec
build_managed_template_spec name tuned =
    if name == "agent-cost-check"
    then cost_check_template_spec tuned
    else quality_check_template_spec tuned

-- The templates that the steps name, each once. Go visits them in an order of its own.
unfoldable pub template_names : List RolloutStep → List String
template_names [] = []
template_names (step ∷ steps) =
    let rest = template_names steps in
    elim step.analysis [
      | none ↦ rest
      | some s ↦ if any_of (λ n. n == s.template_ref) rest then rest else s.template_ref ∷ rest
    ]

-- A template that is there belongs to AgentRoll only by its label; any error of the Get counts as
-- "not there".
unfoldable pub is_foreign : Result AnalysisTemplate → Bool
is_foreign (err _) = false
is_foreign (ok existing) = elim (lookup "app.kubernetes.io/managed-by" existing.labels) [
  | none ↦ true
  | some owner ↦ not (owner == "agentroll")
]

module _ {F : Type 0} where
  -- `agentDeploy.Status.Evolution.TunedThresholds`, nil when there is no status.evolution.
  abbrev pub tuned_of : Option (EvolutionStatus F) → Dict String
  tuned_of none = []
  tuned_of (some ev) = ev.tuned_thresholds

module _ {F : Type 0} (env : Env F) where
  -- The body of the loop over the template names.
  unfoldable pub reconcile_template : String → Exec F (Unit {0})
  reconcile_template name =
      if is_managed name
      then (do
        existing ← try (ask Kind.template name env.get_template)
        a ← gets (λ w. w.agent)
        if is_foreign existing
            then pure tt
            else wrapping ("failed to reconcile AnalysisTemplate " <> name) (
                perform env (
                  apply_template (record {
                    name = name;
                    labels =
                        ("app.kubernetes.io/managed-by", "agentroll")
                        ∷ ("agentroll.dev/template-type", "quality")
                        ∷ [];
                    spec = build_managed_template_spec name (tuned_of a.status.evolution);
                  }))))
      else pure tt

  unfoldable pub reconcile_templates : List String → Exec F (Unit {0})
  reconcile_templates [] = pure tt
  reconcile_templates (name ∷ names) =
      let rest = reconcile_templates names in do reconcile_template name; rest

  -- reconcileAnalysisTemplate.
  unfoldable pub reconcile_analysis_template : Exec F (Unit {0})
  reconcile_analysis_template = do
    a ← gets (λ w. w.agent)
    reconcile_templates (template_names a.spec.rollout.steps)
