-- ===== src/Reconcile.antt =====
-- Reconcile of internal/controller/agentdeployment_controller.go: one pass over an AgentDeployment,
-- with its steps in their order.
pub mod Gate
pub mod Requeue
pub mod Learning
pub mod Tools
pub mod Watch
pub mod Circle
use agentroll.Prelude.{
  ℕ, Bool, eqb, String, ◌<>◌, Option, none, some, List, [], ◌∷◌, ◌++◌, if◌then◌else◌,
}
use agentroll.Float.{Float64}
use agentroll.Api.{AgentDeployment, AgentDeploymentPhase, Condition}
use agentroll.Kube.{Env, Result, ok, err, is_not_found, error_text, Kind, update_finalizers}
use agentroll.Kube.Exec.{
  Exec, pure, raise, gets, try, wrapping, modify, emit, normal, warning, perform, ask, ◌>>=◌, ◌>>◌,
}
use agentroll.Deletion.{contains_finalizer, agent_deployment_finalizer, handle_deletion}
use agentroll.Dependencies.Agents.{check_agent_dependencies}
use agentroll.Dependencies.Tools.{reconcile_tool_dependencies}
use agentroll.Evaluation.Templates.{
  reconcile_judge_template, reconcile_tool_check_template, reconcile_memory_check_template,
}
use agentroll.Evaluation.Scores.{reconcile_eval_history}
use agentroll.Evolution.Loop.{reconcile_evolution}
use agentroll.Experiment.Prompt.{reconcile_prompt_experiment}
use agentroll.Experiment.Tool.{reconcile_tool_experiment}
use agentroll.Memory.Backend.{reconcile_memory_backend}
use agentroll.Memory.Lifecycle.{reconcile_memory_lifecycle}
use agentroll.Rollout.Version.{build_composite_version, join}
use agentroll.Rollout.Templates.Managed.{reconcile_analysis_template}
use agentroll.Rollout.Resources.{reconcile_rollout, reconcile_service, reconcile_service_account}
use agentroll.Rollout.Scaling.{reconcile_scaled_object}
use agentroll.Rollout.Telemetry.{reconcile_otel_config}
use agentroll.Scorecard.{reconcile_optimization_scorecard}
use agentroll.Status.{update_agent_status, emit_phase_event}

abbrev phase_number : AgentDeploymentPhase → ℕ
phase_number AgentDeploymentPhase.unset = 0
phase_number AgentDeploymentPhase.pending = 1
phase_number AgentDeploymentPhase.progressing = 2
phase_number AgentDeploymentPhase.stable = 3
phase_number AgentDeploymentPhase.degraded = 4
phase_number AgentDeploymentPhase.rolling_back = 5

-- The switch on the phase at the end of a pass.
unfoldable pub requeue_after : AgentDeploymentPhase → ℕ
requeue_after AgentDeploymentPhase.progressing = 15
requeue_after AgentDeploymentPhase.pending = 15
requeue_after AgentDeploymentPhase.rolling_back = 15
requeue_after _ = 30

-- `agentDeploy.Status.Phase != prevPhase`, negated.
abbrev pub same_phase : AgentDeploymentPhase → AgentDeploymentPhase → Bool
same_phase p q = eqb (phase_number p) (phase_number q)

module _ {F : Type 0} where
  unfoldable pub settle_fatal : String → String → Result (Unit {0}) → Exec F (Unit {0})
  settle_fatal reason text (ok _) = pure tt
  settle_fatal reason text (err e) = do emit warning reason (text <> ": " <> error_text e); raise e

  -- A step whose error ends the pass, with an event.
  unfoldable pub fatal : String → String → Exec F (Unit {0}) → Exec F (Unit {0})
  fatal reason text step = do outcome ← try step; settle_fatal reason text outcome

  unfoldable pub settle_lenient : String → String → Result (Unit {0}) → Exec F (Unit {0})
  settle_lenient reason text (ok _) = pure tt
  settle_lenient reason text (err e) = emit warning reason (text <> ": " <> error_text e)

  -- A step whose error is only reported.
  unfoldable pub lenient : String → String → Exec F (Unit {0}) → Exec F (Unit {0})
  lenient reason text step = do outcome ← try step; settle_lenient reason text outcome

  -- A step whose error is only logged.
  unfoldable pub quiet : Exec F (Unit {0}) → Exec F (Unit {0})
  quiet step = do _ ← try step; pure tt

module _ {F : Type 0} (env : Env F) where
  -- controllerutil.AddFinalizer and the Update, where the finalizer is not there.
  unfoldable pub ensure_finalizer : Exec F (Unit {0})
  ensure_finalizer = do
    a ← gets (λ w. w.agent)
    if contains_finalizer a.finalizers then pure tt else (do
      let added = a.finalizers ++ agent_deployment_finalizer ∷ []
      modify λ b. record b { finalizers = added }
      wrapping "failed to add finalizer" (perform env (update_finalizers added)))

module _ {F : Type 0} ⦃fl : Float64 F⦄ (env : Env F) where
  -- Steps 3 to 3.3.
  unfoldable pub reconcile_checks : Exec F (Unit {0})
  reconcile_checks = do
    fatal "ReconcileError" "failed to reconcile AnalysisTemplate" (reconcile_analysis_template env)
    lenient "EvalError" "judge template reconcile failed" (reconcile_judge_template env)
    lenient "ToolCheckError" "tool check template reconcile failed"
        (reconcile_tool_check_template env)
    lenient "MemoryCheckError" "memory check template reconcile failed"
        (reconcile_memory_check_template env)

  -- Steps 3.5 to 5.5.
  unfoldable pub reconcile_resources : String → Exec F (Unit {0})
  reconcile_resources composite_version = do
    fatal "ReconcileError" "failed to reconcile OTel ConfigMap" (reconcile_otel_config env)
    fatal "ToolConstraintFailed" "MCP tool dependency error" (reconcile_tool_dependencies env)
    fatal "ReconcileError" "failed to reconcile ServiceAccount" (reconcile_service_account env)
    fatal "ReconcileError" "failed to reconcile Rollout" (reconcile_rollout env composite_version)
    fatal "ReconcileError" "failed to reconcile Service" (reconcile_service env)
    fatal "ReconcileError" "failed to reconcile ScaledObject" (reconcile_scaled_object env)

  -- Steps 5.7 to 5.13, none of which can end the pass.
  unfoldable pub reconcile_learning : String → Exec F (Unit {0})
  reconcile_learning composite_version = do
    lenient "EvolutionError" "evolution loop failed" (reconcile_evolution env)
    quiet (reconcile_eval_history env)
    lenient "PromptExperimentError" "prompt experiment failed" (reconcile_prompt_experiment env)
    lenient "ToolExperimentError" "tool experiment failed" (reconcile_tool_experiment env)
    lenient "MemoryLifecycleError" "memory lifecycle reconcile failed"
        (reconcile_memory_lifecycle env composite_version)
    lenient "MemoryBackendError" "memory backend reconcile failed"
        (reconcile_memory_backend env composite_version)
    lenient "OptimizationScorecardError" "optimization scorecard failed"
        (reconcile_optimization_scorecard env)

module _ {F : Type 0} ⦃fl : Float64 F⦄ (set_condition : List Condition → Condition → List Condition)
    (env : Env F) where
  -- Step 6 and the requeue: RequeueAfter in seconds, with `none` for ctrl.Result{}.
  unfoldable pub report : String → Exec F (Option ℕ)
  report composite_version = do
    previous ← gets (λ w. w.agent.status.phase)
    update_agent_status set_condition env composite_version
    current ← gets (λ w. w.agent.status.phase)
    if same_phase current previous then pure tt else emit_phase_event
    pure (some (requeue_after current))

  -- Steps 3 to 6, past the gate on the dependencies.
  unfoldable pub reconcile_ready : String → Exec F (Option ℕ)
  reconcile_ready composite_version = do
    reconcile_checks env
    reconcile_resources env composite_version
    reconcile_learning env composite_version
    report composite_version

  -- What the check of the dependencies leads to.
  unfoldable pub past_gate : AgentDeployment F → Result Bool → Exec F (Option ℕ)
  past_gate a (err e) = do
    emit warning "ReconcileError" ("failed to check agent dependencies: " <> error_text e)
    raise e
  past_gate a (ok waiting) =
      if waiting
      then (do
        emit normal "DependencyNotReady" (
            "waiting for dependencies to reach Stable phase: ["
            <> join " " a.spec.depends_on
            <> "]")
        pure (some 30))
      else reconcile_ready (build_composite_version env a)

  -- The pass over an AgentDeployment that was fetched.
  unfoldable pub reconcile_live : AgentDeployment F → Exec F (Option ℕ)
  reconcile_live a = do
    ensure_finalizer env
    waiting ← try (check_agent_dependencies env)
    past_gate a waiting

  unfoldable pub reconcile_fetched : Result (AgentDeployment F) → Exec F (Option ℕ)
  reconcile_fetched (err e) = if is_not_found e then pure none else raise e
  reconcile_fetched (ok a) = do
    modify λ _. a
    if a.deleting then (do handle_deletion env; pure none) else reconcile_live a

  -- Reconcile, for the request with this name.
  unfoldable pub reconcile : String → Exec F (Option ℕ)
  reconcile name = do found ← try (ask Kind.agent name env.get_agent); reconcile_fetched found
