-- ===== src/Experiment/Tool.antt =====
-- internal/controller/tool_experiment.go.
use agentroll.Prelude.{
  ℕ, String, ◌<>◌, Option, none, some, map, decimal, quoted, is_set, if◌then◌else◌,
}
use agentroll.Float.{Float64}
use agentroll.Api.{
  AgentDeployment, EvolutionSpec, ToolExperiment, ExperimentStatus, ToolLineageEntry, Outcome,
  ExperimentPhase,
}
use agentroll.Kube.{Env, Result, ok, err, is_not_found, wrap, Kind, update_experiment_status}
use agentroll.Kube.Exec.{
  Exec, pure, raise, gets, try, wrapping, modify, emit, normal, warning, perform, ask, ◌>>=◌, ◌>>◌,
}
use agentroll.History.{append_tool_lineage}
use agentroll.Scorecard.{increment_optimization_generation}
use agentroll.Experiment.Decide.{
  Decision, waiting, promote, reject, assess, value_or_5, started_message,
}

-- `ev.ToolExperiment`, and "" when there is no spec.evolution.
unfoldable pub tool_experiment_of : Option EvolutionSpec → String
tool_experiment_of none = ""
tool_experiment_of (some ev) = ev.tool_experiment

module _ {F : Type 0} where
  -- toolExperimentMinSamples.
  unfoldable pub tool_experiment_min_samples : AgentDeployment F → ℕ
  tool_experiment_min_samples a = elim a.spec.evolution [
    | none ↦ 5
    | some ev ↦ value_or_5 ev.tool_experiment_min_samples
  ]

module _ {F : Type 0} ⦃fl : Float64 F⦄ (env : Env F) where
  -- startToolExperiment.
  unfoldable pub start_tool_experiment : ToolExperiment F → Exec F (Unit {0})
  start_tool_experiment experiment = do
    a ← gets (λ w. w.agent)
    wrapping ("setting ToolExperiment " <> quoted experiment.name <> " to Testing") (
        perform env (
          update_experiment_status experiment.name (record experiment.status {
            phase = ExperimentPhase.testing;
            experiment_started_at = some env.now;
            message = started_message (tool_experiment_min_samples a);
          })))
    emit normal "ToolExperimentStarted" (
        "Tool experiment started: testing "
        <> quoted experiment.name
        <> " (min samples: "
        <> decimal (tool_experiment_min_samples a)
        <> ")")

  unfoldable pub tool_entry : ToolExperiment F → ExperimentStatus F → Outcome → ToolLineageEntry F
  tool_entry experiment st outcome = record {
    experiment_name = experiment.name;
    additional_tools = map (λ t. t.name) experiment.spec.additional_tools;
    removed_tools = experiment.spec.removed_tools;
    hypothesis = experiment.spec.hypothesis;
    variant_mean = st.variant_mean_score;
    control_mean = st.control_mean_score;
    p_value = st.p_value;
    outcome = outcome;
    at = env.now;
  }

  -- promoteToolExperiment, with the status that the evaluation has left in the experiment.
  unfoldable pub promote_tool_experiment : ToolExperiment F → ExperimentStatus F → Exec F (Unit {0})
  promote_tool_experiment experiment st = do
    let st' = record st {
      phase = ExperimentPhase.promoted;
      promoted_at = some env.now;
      message =
          "Promoted: variant mean "
          <> fl.format "%.3f" st.variant_mean_score
          <> " > control mean "
          <> fl.format "%.3f" st.control_mean_score
          <> " with p="
          <> fl.format "%.4f" st.p_value
          <> " < 0.05";
    }
    wrapping ("setting ToolExperiment " <> quoted experiment.name <> " to Promoted")
        (perform env (update_experiment_status experiment.name st'))
    modify λ b. record b {
      status = append_tool_lineage b.status (tool_entry experiment st Outcome.promoted);
    }
    emit normal "ToolExperimentPromoted" (
        "Tool experiment "
        <> quoted experiment.name
        <> " promoted (p="
        <> fl.format "%.4f" st.p_value
        <> "). Update spec.agentMeta.toolDependencies to adopt changes permanently.")
    modify increment_optimization_generation

  -- rejectToolExperiment.
  unfoldable pub reject_tool_experiment : ToolExperiment F → ExperimentStatus F → Exec F (Unit {0})
  reject_tool_experiment experiment st = do
    let st' = record st {
      phase = ExperimentPhase.rejected;
      rejected_at = some env.now;
      message =
          "Rejected: variant mean "
          <> fl.format "%.3f" st.variant_mean_score
          <> " did not significantly exceed control mean "
          <> fl.format "%.3f" st.control_mean_score
          <> " (p="
          <> fl.format "%.4f" st.p_value
          <> ")";
    }
    wrapping ("setting ToolExperiment " <> quoted experiment.name <> " to Rejected")
        (perform env (update_experiment_status experiment.name st'))
    modify λ b. record b {
      status = append_tool_lineage b.status (tool_entry experiment st Outcome.rejected);
    }
    emit normal "ToolExperimentRejected" (
        "Tool experiment "
        <> quoted experiment.name
        <> " rejected (p="
        <> fl.format "%.4f" st.p_value
        <> ", variantMean="
        <> fl.format "%.3f" st.variant_mean_score
        <> ", controlMean="
        <> fl.format "%.3f" st.control_mean_score
        <> ")")

  unfoldable pub conclude_tool :
      ToolExperiment F → ExperimentStatus F × Decision → Exec F (Unit {0})
  conclude_tool experiment (st, waiting) =
      wrapping "updating ToolExperiment scores"
        (perform env (update_experiment_status experiment.name st))
  conclude_tool experiment (st, promote) = promote_tool_experiment experiment st
  conclude_tool experiment (st, reject) = reject_tool_experiment experiment st

  unfoldable pub evaluate_tool_from : ToolExperiment F → Option ℕ → Exec F (Unit {0})
  evaluate_tool_from experiment none = pure tt
  evaluate_tool_from experiment (some started_at) = do
    a ← gets (λ w. w.agent)
    conclude_tool experiment
        (assess a.status.eval_history started_at (tool_experiment_min_samples a) experiment.status)

  -- evaluateToolExperiment.
  unfoldable pub evaluate_tool_experiment : ToolExperiment F → Exec F (Unit {0})
  evaluate_tool_experiment experiment =
      evaluate_tool_from experiment experiment.status.experiment_started_at

  -- The `switch` on the experiment's phase.
  unfoldable pub advance_tool : ExperimentPhase → ToolExperiment F → Exec F (Unit {0})
  advance_tool ExperimentPhase.unset experiment = start_tool_experiment experiment
  advance_tool ExperimentPhase.pending experiment = start_tool_experiment experiment
  advance_tool ExperimentPhase.testing experiment = evaluate_tool_experiment experiment
  advance_tool _ experiment = pure tt

  unfoldable pub tool_fetched :
      AgentDeployment F → String → Result (ToolExperiment F) → Exec F (Unit {0})
  tool_fetched a name (ok experiment) = advance_tool experiment.status.phase experiment
  tool_fetched a name (err e) =
      if is_not_found e
      then emit warning "ToolExperimentError"
          ("ToolExperiment " <> quoted name <> " not found in namespace " <> quoted a.namespace)
      else raise (wrap ("fetching ToolExperiment " <> quoted name) e)

  -- reconcileToolExperiment.
  unfoldable pub reconcile_tool_experiment : Exec F (Unit {0})
  reconcile_tool_experiment = do
    a ← gets (λ w. w.agent)
    let name = tool_experiment_of a.spec.evolution
    if is_set name
        then (do
          found ← try (ask Kind.experiment name env.get_experiment)
          tool_fetched a name found)
        else pure tt

  unfoldable pub active_of : Result (ToolExperiment F) → Option (ToolExperiment F)
  active_of (err _) = none
  active_of (ok experiment) = elim experiment.status.phase [
    | ExperimentPhase.testing ↦ some experiment
    | _ ↦ none
  ]

  -- activeToolExperiment.
  unfoldable pub active_tool_experiment : Exec F (Option (ToolExperiment F))
  active_tool_experiment = do
    a ← gets (λ w. w.agent)
    let name = tool_experiment_of a.spec.evolution
    if is_set name
        then (do found ← try (ask Kind.experiment name env.get_experiment); pure (active_of found))
        else pure none
