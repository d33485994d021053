-- ===== src/Experiment/Prompt.antt =====
-- internal/controller/prompt_experiment.go, sections 10.1 and 10.4.
use agentroll.Prelude.{
  ℕ, String, ◌<>◌, Option, none, some, [], ◌∷◌, insert, decimal, quoted, ◌==◌, is_set,
  if◌then◌else◌,
}
use agentroll.Float.{Float64, ge}
use agentroll.Api.{
  AgentDeployment, EvolutionSpec, PromptVariant, ExperimentStatus, PromptLineageEntry, Outcome,
}
use agentroll.Kube.{
  Env, Result, ok, err, is_not_found, wrap, Kind, update_variant_status, apply_config_map,
  create_config_map, update_config_map, ConfigMap,
}
use agentroll.Kube.Exec.{
  Exec, pure, raise, gets, try, wrapping, modify, emit, normal, warning, perform, ask, ◌>>=◌, ◌>>◌,
}
use agentroll.History.{append_prompt_lineage}
use agentroll.Scorecard.{increment_optimization_generation}
use agentroll.Experiment.Decide.{
  Decision, waiting, promote, reject, assess, value_or_5, started_message,
}

-- variantConfigMapName.
unfoldable pub variant_config_map_name : String → String
variant_config_map_name agent_name = agent_name <> "-prompt-experiment"

-- `ev.PromptExperiment`, and "" when there is no spec.evolution.
unfoldable pub prompt_experiment_of : Option EvolutionSpec → String
prompt_experiment_of none = ""
prompt_experiment_of (some ev) = ev.prompt_experiment

-- `ev.PromptConfigMap`, and "" when there is no spec.evolution.
unfoldable pub prompt_config_map_of : Option EvolutionSpec → String
prompt_config_map_of none = ""
prompt_config_map_of (some ev) = ev.prompt_config_map

-- The object that the first `Get` of promoteVariant leaves in `mainCM`.
unfoldable pub fresh_config_map : String → ConfigMap
fresh_config_map name = record { name = name; resource_version = ""; labels = []; entries = [] }

module _ {F : Type 0} where
  -- promptExperimentMinSamples.
  unfoldable pub prompt_experiment_min_samples : AgentDeployment F → ℕ
  prompt_experiment_min_samples a = elim a.spec.evolution [
    | none ↦ 5
    | some ev ↦ value_or_5 ev.prompt_experiment_min_samples
  ]

module _ {F : Type 0} ⦃fl : Float64 F⦄ (env : Env F) where
  -- startExperiment.
  unfoldable pub start_experiment : PromptVariant F → Exec F (Unit {0})
  start_experiment variant = do
    a ← gets (λ w. w.agent)
    let cm_name = variant_config_map_name a.name
    wrapping ("creating variant ConfigMap " <> quoted cm_name) (
        perform env (
          apply_config_map (record {
            name = cm_name;
            resource_version = "";
            labels = [];
            entries = ("system_prompt", variant.spec.system_prompt) ∷ [];
          })))
    wrapping ("setting PromptVariant " <> quoted variant.name <> " to Testing") (
        perform env (
          update_variant_status variant.name (record variant.status {
            phase = agentroll.Api.testing;
            experiment_started_at = some env.now;
            message = started_message (prompt_experiment_min_samples a);
          })))
    emit normal "PromptExperimentStarted" (
        "Prompt experiment started: testing variant "
        <> quoted variant.name
        <> " (min samples: "
        <> decimal (prompt_experiment_min_samples a)
        <> ")")

  unfoldable pub lineage_entry :
      PromptVariant F → ExperimentStatus F → Outcome → PromptLineageEntry F
  lineage_entry variant st outcome = record {
    variant_name = variant.name;
    parent_version = variant.spec.parent_version;
    hypothesis = variant.spec.hypothesis;
    variant_mean = st.variant_mean_score;
    control_mean = st.control_mean_score;
    p_value = st.p_value;
    outcome = outcome;
    at = env.now;
  }

  -- The result of the first `Get` of promoteVariant: NotFound gives a new object.
  unfoldable pub found_or_fresh : String → Result ConfigMap → Exec F ConfigMap
  unfolding fresh_config_map
  found_or_fresh name (ok cm) = pure cm
  found_or_fresh name (err e) =
      if is_not_found e
      then pure (fresh_config_map name)
      else raise (wrap "fetching main promptConfigMap" e)

  -- The first part of promoteVariant: the winning prompt goes to spec.evolution.promptConfigMap.
  unfoldable pub write_winning_prompt : String → PromptVariant F → Exec F (Unit {0})
  write_winning_prompt name variant = do
    found ← try (ask Kind.config_map name env.get_config_map)
    cm ← found_or_fresh name found
    let main_cm = record cm {
      entries = insert "system_prompt" variant.spec.system_prompt cm.entries;
    }
    if main_cm.resource_version == ""
        then wrapping "creating main promptConfigMap with winning prompt"
            (perform env (create_config_map main_cm))
        else wrapping "updating main promptConfigMap with winning prompt"
            (perform env (update_config_map main_cm))

  -- promoteVariant, with the status that the evaluation has left in the variant.
  unfoldable pub promote_variant : PromptVariant F → ExperimentStatus F → Exec F (Unit {0})
  promote_variant variant st = do
    a ← gets (λ w. w.agent)
    let target = prompt_config_map_of a.spec.evolution
    if is_set target then write_winning_prompt target variant else pure tt
    let message =
        "Promoted: variant mean "
        <> fl.format "%.3f" st.variant_mean_score
        <> " > control mean "
        <> fl.format "%.3f" st.control_mean_score
        <> " with p="
        <> fl.format "%.4f" st.p_value
        <> " < 0.05"
    let st' = record st {
      phase = agentroll.Api.ExperimentPhase.promoted;
      promoted_at = some env.now;
      message = message;
    }
    wrapping ("setting PromptVariant " <> quoted variant.name <> " to Promoted")
        (perform env (update_variant_status variant.name st'))
    modify λ b. record b {
      status = append_prompt_lineage b.status (lineage_entry variant st Outcome.promoted);
    }
    emit normal "PromptVariantPromoted" message
    modify increment_optimization_generation

  -- The message of rejectVariant.
  unfoldable pub rejection_message : ExperimentStatus F → String
  rejection_message st =
      if ge st.p_value (fl.ratio 5 100)
      then "Rejected: p-value "
        <> fl.format "%.4f" st.p_value
        <> " >= 0.05 (not statistically significant)"
      else "Rejected: variant mean "
        <> fl.format "%.3f" st.variant_mean_score
        <> " not better than control mean "
        <> fl.format "%.3f" st.control_mean_score

  -- rejectVariant.
  unfoldable pub reject_variant : PromptVariant F → ExperimentStatus F → Exec F (Unit {0})
  reject_variant variant st = do
    let message = rejection_message st
    let st' = record st {
      phase = agentroll.Api.ExperimentPhase.rejected;
      rejected_at = some env.now;
      message = message;
    }
    wrapping ("setting PromptVariant " <> quoted variant.name <> " to Rejected")
        (perform env (update_variant_status variant.name st'))
    modify λ b. record b {
      status = append_prompt_lineage b.status (lineage_entry variant st Outcome.rejected);
    }
    emit normal "PromptVariantRejected" message

  unfoldable pub conclude : PromptVariant F → ExperimentStatus F × Decision → Exec F (Unit {0})
  conclude variant (st, waiting) =
      wrapping "updating PromptVariant scores" (perform env (update_variant_status variant.name st))
  conclude variant (st, promote) = promote_variant variant st
  conclude variant (st, reject) = reject_variant variant st

  unfoldable pub evaluate_from : PromptVariant F → Option ℕ → Exec F (Unit {0})
  evaluate_from variant none = pure tt
  evaluate_from variant (some started_at) = do
    a ← gets (λ w. w.agent)
    conclude variant
        (assess a.status.eval_history started_at (prompt_experiment_min_samples a) variant.status)

  -- evaluateExperiment.
  unfoldable pub evaluate_experiment : PromptVariant F → Exec F (Unit {0})
  evaluate_experiment variant = evaluate_from variant variant.status.experiment_started_at

  -- The `switch` on the variant's phase.
  unfoldable pub advance_prompt :
      agentroll.Api.ExperimentPhase → PromptVariant F → Exec F (Unit {0})
  advance_prompt agentroll.Api.unset variant = start_experiment variant
  advance_prompt agentroll.Api.ExperimentPhase.pending variant = start_experiment variant
  advance_prompt agentroll.Api.testing variant = evaluate_experiment variant
  advance_prompt _ variant = pure tt

  unfoldable pub prompt_fetched :
      AgentDeployment F → String → Result (PromptVariant F) → Exec F (Unit {0})
  prompt_fetched a name (ok variant) = advance_prompt variant.status.phase variant
  prompt_fetched a name (err e) =
      if is_not_found e
      then emit warning "PromptExperimentError"
          ("PromptVariant " <> quoted name <> " not found in namespace " <> quoted a.namespace)
      else raise (wrap ("fetching PromptVariant " <> quoted name) e)

  -- reconcilePromptExperiment.
  unfoldable pub reconcile_prompt_experiment : Exec F (Unit {0})
  reconcile_prompt_experiment = do
    a ← gets (λ w. w.agent)
    let name = prompt_experiment_of a.spec.evolution
    if is_set name
        then (do found ← try (ask Kind.variant name env.get_variant); prompt_fetched a name found)
        else pure tt
