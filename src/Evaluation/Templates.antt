-- ===== src/Evaluation/Templates.antt =====
-- reconcileJudgeTemplate (internal/controller/evaluation.go), reconcileToolCheckTemplate
-- (tool_check_template.go) and reconcileMemoryCheckTemplate (memory_check_template.go), with the specs
-- of their Jobs. A Job's restart policy (Never) and its back-off limit (0) are the same in all.
use agentroll.Prelude.{
  Bool, true, false, not, ◌||◌, String, ◌<>◌, Option, none, some, List, [], ◌∷◌, ◌++◌, Dict, lookup,
  is_set, is_empty, or_default, if◌then◌else◌,
}
use agentroll.Api.{
  AgentDeployment, EnvVar, EnvSource, EvaluationSpec, LangfuseSpec, MemoryBackendSpec,
  EvolutionSpec,
}
use agentroll.Kube.{Env, apply_template, TemplateArgument, TemplateSpec}
use agentroll.Kube.Exec.{Exec, pure, gets, wrapping, perform, ◌>>=◌}
use agentroll.Langfuse.{langfuse_vars, secret_var}
use agentroll.Rollout.Steps.{langfuse_of}
use agentroll.Rollout.Pod.{var_of, backend_of}
use agentroll.Rollout.Templates.Managed.{required_arg, default_arg, service_url, tuned_of}

-- `spec.evaluation`'s ConfigMap, whose keys may be missing.
abbrev rubric_var : String → String → String → EnvVar
rubric_var name config_map key = record {
  name = name;
  value = EnvSource.config_map_key config_map key true;
}

unfoldable pub rubric_vars : String → List EnvVar
rubric_vars config_map =
    if is_set config_map
    then rubric_var "EVAL_RUBRIC" config_map "rubric"
      ∷ rubric_var "TEST_QUERIES" config_map "test_prompts"
      ∷ []
    else []

abbrev pub default_judge_model : String
default_judge_model = "claude-haiku-4-5-20251001"

-- judgeJobSpec: the variables of the Job.
unfoldable pub judge_env : EvaluationSpec → Option LangfuseSpec → List EnvVar
judge_env eval lf =
    (var_of "AGENT_SERVICE_URL" service_url
      ∷ var_of "JUDGE_PROVIDER" (or_default eval.judge_provider "anthropic")
      ∷ var_of "JUDGE_MODEL" (or_default eval.judge_model default_judge_model)
      ∷ secret_var "JUDGE_API_KEY" eval.secret_ref "API_KEY"
      ∷ var_of "MIN_JUDGE_SCORE" (or_default eval.min_score "0.7")
      ∷ var_of "CANARY_VERSION" "{{args.canary-version}}"
      ∷ [])
    ++ (rubric_vars eval.config_map ++ langfuse_vars lf)

-- The arguments that the three templates declare.
unfoldable pub service_args : List TemplateArgument → List TemplateArgument
service_args more =
    required_arg "service-name"
    ∷ default_arg "service-port" "8080"
    ∷ required_arg "namespace"
    ∷ required_arg "canary-version"
    ∷ more

unfoldable pub job_template :
    String → String → String → List TemplateArgument → List EnvVar → TemplateSpec
job_template metric container image args env = record {
  args = args;
  metric = metric;
  interval = "";
  count = none;
  failure_limit = none;
  container = container;
  image = image;
  env = env;
}

-- judgeTemplateSpec.
unfoldable pub judge_template_spec : EvaluationSpec → Option LangfuseSpec → TemplateSpec
judge_template_spec eval lf =
    job_template "judge-quality" "judge" "ghcr.io/agentroll/judge-runner:v1"
      (service_args (required_arg "stable-version" ∷ [])) (judge_env eval lf)

-- `if v, ok := tuned[key]; ok { rate = v }`: here an empty text counts.
unfoldable pub tuned_if_present : Dict String → String → String → String
tuned_if_present tuned key fallback = elim (lookup key tuned) [ none ↦ fallback | some v ↦ v ]

unfoldable pub session_vars : MemoryBackendSpec → List EnvVar
session_vars backend =
    if is_set backend.session_id then var_of "AGENT_SESSION_ID" backend.session_id ∷ [] else []

abbrev pub has_tool_experiment : Option EvolutionSpec → Bool
has_tool_experiment none = false
has_tool_experiment (some ev) = is_set ev.tool_experiment

module _ {F : Type 0} where
  -- toolCheckJobSpec.
  unfoldable pub tool_check_env : AgentDeployment F → Option LangfuseSpec → List EnvVar
  tool_check_env a lf =
      (var_of "AGENT_SERVICE_URL" service_url
        ∷ var_of "MIN_TOOL_SUCCESS_RATE"
            (tuned_if_present (tuned_of a.status.evolution) "min_tool_success_rate" "0.8")
        ∷ var_of "CANARY_VERSION" "{{args.canary-version}}"
        ∷ [])
      ++ langfuse_vars lf

  -- toolCheckTemplateSpec.
  unfoldable pub tool_check_template_spec : AgentDeployment F → Option LangfuseSpec → TemplateSpec
  tool_check_template_spec a lf =
      job_template "tool-success-rate" "tool-checker" "ghcr.io/agentroll/tool-checker:v1"
        (service_args (required_arg "stable-version" ∷ [])) (tool_check_env a lf)

  -- memoryCheckJobSpec, where the agent has both an evaluation and a backend.
  unfoldable pub memory_check_env :
      AgentDeployment F → EvaluationSpec → MemoryBackendSpec → Option LangfuseSpec → List EnvVar
  memory_check_env a eval backend lf =
      (var_of "AGENT_SERVICE_URL" service_url
        ∷ var_of "CANARY_VERSION" "{{args.canary-version}}"
        ∷ var_of "MIN_MEMORY_RECALL_SCORE"
            (tuned_if_present (tuned_of a.status.evolution) "min_memory_recall_score" "0.7")
        ∷ var_of "JUDGE_MODEL" (or_default eval.judge_model default_judge_model)
        ∷ var_of "JUDGE_PROVIDER" (or_default eval.judge_provider "anthropic")
        ∷ var_of "MEM0_API_URL" backend.endpoint
        ∷ secret_var "API_KEY" eval.secret_ref "API_KEY"
        ∷ [])
      ++ (session_vars backend ++ langfuse_vars lf)

  -- memoryCheckTemplateSpec.
  unfoldable pub memory_check_template_spec :
      AgentDeployment F → EvaluationSpec → MemoryBackendSpec → Option LangfuseSpec → TemplateSpec
  memory_check_template_spec a eval backend lf =
      job_template "memory-recall-accuracy" "memory-checker" "ghcr.io/agentroll/memory-checker:v1"
        (service_args []) (memory_check_env a eval backend lf)

module _ {F : Type 0} (env : Env F) where
  -- CreateOrUpdate of a template, which does not ask whose it was.
  unfoldable pub apply_check : String → String → TemplateSpec → Exec F (Unit {0})
  apply_check name kind spec = wrapping ("failed to reconcile " <> name <> " AnalysisTemplate") (
      perform env (
        apply_template (record {
          name = name;
          labels =
              ("app.kubernetes.io/managed-by", "agentroll")
              ∷ ("agentroll.dev/template-type", kind)
              ∷ [];
          spec = spec;
        })))

  unfoldable pub judge_for : Option EvaluationSpec → Option LangfuseSpec → Exec F (Unit {0})
  judge_for none lf = pure tt
  judge_for (some eval) lf = apply_check "agent-judge-check" "judge" (judge_template_spec eval lf)

  -- reconcileJudgeTemplate.
  unfoldable pub reconcile_judge_template : Exec F (Unit {0})
  reconcile_judge_template = do
    a ← gets (λ w. w.agent)
    judge_for a.spec.evaluation (langfuse_of a.spec.observability)

  -- reconcileToolCheckTemplate.
  unfoldable pub reconcile_tool_check_template : Exec F (Unit {0})
  reconcile_tool_check_template = do
    a ← gets (λ w. w.agent)
    if not (is_empty a.spec.agent_meta.tool_dependencies) || has_tool_experiment a.spec.evolution
        then apply_check "agent-tool-check" "tool-check"
            (tool_check_template_spec a (langfuse_of a.spec.observability))
        else pure tt

  unfoldable pub memory_check_for :
      AgentDeployment F → Option EvaluationSpec → Option MemoryBackendSpec → Exec F (Unit {0})
  memory_check_for a (some eval) (some backend) =
      apply_check "agent-memory-check" "memory-check"
        (memory_check_template_spec a eval backend (langfuse_of a.spec.observability))
  memory_check_for a _ _ = pure tt

  -- reconcileMemoryCheckTemplate.
  unfoldable pub reconcile_memory_check_template : Exec F (Unit {0})
  reconcile_memory_check_template = do
    a ← gets (λ w. w.agent)
    memory_check_for a a.spec.evaluation (backend_of a.spec.memory)
