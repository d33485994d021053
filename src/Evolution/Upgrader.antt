-- ===== src/Evolution/Upgrader.antt =====
-- runModelUpgrader and detectQualityPlateau of internal/controller/evolution.go.
use agentroll.Prelude.{
  ℕ, Bool, false, String, ◌<>◌, Option, none, some, List, [], ◌∷◌, ◌++◌, decimal, length, take,
  filter_by, ltb, if◌then◌else◌,
}
use agentroll.Float.{Float64, zero_f}
use agentroll.Stats.{compute_stats}
use agentroll.Api.{EvolutionSpec, EvolutionOptimizerSpec, GitHubSpec}
use agentroll.Kube.{Env, Measurement, MetricResult, AnalysisRun}
use agentroll.Kube.Exec.{Exec, pure, gets, try, wrapping, ◌>>=◌}
use agentroll.Langfuse.{read_secret_key}
use agentroll.Evolution.Tuner.{is_upper_bound_metric, is_successful, list_runs}
use agentroll.Evolution.Llm.{call_llm}
use agentroll.Evolution.GitHub.{github_of, open_evolution_pr}
use agentroll.Evolution.Optimizer.{pr_text}

-- sort.Slice, newest first; runs of one time stay as they were, where Go leaves their order open.
unfoldable pub insert_run : AnalysisRun → List AnalysisRun → List AnalysisRun
insert_run run [] = run ∷ []
insert_run run (r ∷ runs) =
    let later = insert_run run runs in
    if ltb run.created_at r.created_at then r ∷ later else run ∷ r ∷ runs

unfoldable pub newest_first : List AnalysisRun → List AnalysisRun
newest_first [] = []
newest_first (run ∷ runs) = insert_run run (newest_first runs)

-- The runs that a decision about a plateau looks at.
unfoldable pub newest_successful : ℕ → List AnalysisRun → List AnalysisRun
newest_successful n runs = take n (newest_first (filter_by is_successful runs))

module _ {F : Type 0} ⦃fl : Float64 F⦄ where
  unfoldable pub parsed_values : List Measurement → List F
  parsed_values [] = []
  parsed_values (m ∷ ms) =
      let rest = parsed_values ms in elim (fl.parse m.value) [ none ↦ rest | some v ↦ v ∷ rest ]

  unfoldable pub metric_scores : List MetricResult → List F
  metric_scores [] = []
  metric_scores (mr ∷ metrics) =
      let rest = metric_scores metrics in
      if is_upper_bound_metric mr.name then rest else parsed_values mr.measurements ++ rest

  unfoldable pub quality_scores : List AnalysisRun → List F
  quality_scores [] = []
  quality_scores (run ∷ runs) = metric_scores run.metric_results ++ quality_scores runs

  -- The rest of detectQualityPlateau, from the scores: whether there is a plateau, and the mean.
  unfoldable pub plateau_of : ℕ → List F → Bool × F
  plateau_of n scores =
      let (mean, stddev) = compute_stats scores in
      if ltb (length scores) n
      then (false, zero_f)
      else if fl.eq mean zero_f
      then (false, zero_f)
      else (fl.lt (fl.div stddev mean) (fl.ratio 5 100), mean)

  -- detectQualityPlateau, from the runs.
  unfoldable pub plateau_in : ℕ → List AnalysisRun → Bool × F
  plateau_in n runs =
      if ltb (length (filter_by is_successful runs)) n
      then (false, zero_f)
      else plateau_of n (quality_scores (newest_successful n runs))

abbrev plateau_or_3 : Option ℕ → ℕ
plateau_or_3 none = 3
plateau_or_3 (some n) = n

abbrev upgrader_system_prompt : String
upgrader_system_prompt =
    "You are an expert AI infrastructure engineer.\n"
    <> "An AI agent has been deployed with the same quality metrics for several consecutive canary "
    <> "releases,\nindicating that performance has plateaued with the current model.\n\n"
    <> "Suggest a specific, actionable model upgrade. Consider:\n"
    <> "1. What newer model versions of the same provider might improve quality\n"
    <> "2. Alternative model providers that could better serve the use case\n"
    <> "3. Model-specific configuration changes (temperature, context window, etc.)\n\n"
    <> "Be concrete and specific. Keep your response under 300 words."

module _ {F : Type 0} ⦃fl : Float64 F⦄ where
  unfoldable pub upgrade_question : String → String → ℕ → F → String
  upgrade_question agent_name model n quality =
      "Agent: "
      <> agent_name
      <> "\nCurrent model: "
      <> model
      <> "\nQuality plateau detected after "
      <> decimal n
      <> " consecutive canaries.\nAverage quality score: "
      <> fl.format "%.4f" quality
      <> "\n\nWhat model upgrade would you recommend?"

module _ {F : Type 0} (env : Env F) where
  -- detectQualityPlateau.
  unfoldable pub detect_quality_plateau : ⦃fl : Float64 F⦄ → ℕ → Exec F (Bool × F)
  detect_quality_plateau n = do runs ← list_runs env; pure (plateau_in n runs)

  unfoldable pub deliver_upgrade : Option GitHubSpec → ℕ → String → Exec F String
  deliver_upgrade (some gh) n suggestion = do
    opened ← try (open_evolution_pr env gh "model-upgrader" suggestion)
    pure (pr_text "model-upgrader" opened)
  deliver_upgrade none n suggestion =
      pure (
        "model-upgrader: plateau detected after " <> decimal n <> " canaries, suggestion generated")

  -- runModelUpgrader.
  unfoldable pub run_model_upgrader :
      ⦃fl : Float64 F⦄ → EvolutionSpec → EvolutionOptimizerSpec → Exec F String
  run_model_upgrader ev optimizer = do
    a ← gets (λ w. w.agent)
    let n = plateau_or_3 ev.consecutive_canaries_for_plateau
    found ← wrapping "detecting quality plateau" (detect_quality_plateau n)
    if found.0
        then (do
          key ←
              wrapping "reading optimizer API key"
                (read_secret_key env a.namespace optimizer.secret_ref "API_KEY")
          suggestion ← wrapping "LLM call for model upgrade" (
              call_llm env optimizer.provider (record {
                model = optimizer.model;
                key = key;
                system = upgrader_system_prompt;
                user = upgrade_question a.name a.spec.agent_meta.model_version n found.1;
              }))
          deliver_upgrade (github_of ev.human_approval) n suggestion)
        else pure ""
