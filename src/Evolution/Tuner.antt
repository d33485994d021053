-- ===== src/Evolution/Tuner.antt =====
-- runThresholdTuner and isUpperBoundMetric of internal/controller/evolution.go.
use agentroll.Prelude.{
  Bool, true, false, String, ◌<>◌, Option, none, some, List, [], ◌∷◌, Dict, insert, map, length,
  ltb, is_set, is_empty, any_of, contains, to_lower, if◌then◌else◌,
}
use agentroll.Float.{Float64, zero_f}
use agentroll.Stats.{compute_stats}
use agentroll.Scorecard.{with_evolution}
use agentroll.Api.{AgentDeployment, LangfuseSpec}
use agentroll.Kube.{Env, Result, ok, err, Kind, successful, Measurement, MetricResult, AnalysisRun}
use agentroll.Kube.Exec.{Exec, pure, gets, try, wrapping, modify, ask, ◌>>=◌, ◌>>◌}
use agentroll.Rollout.Steps.{langfuse_of}
use agentroll.Rollout.Version.{sort_texts, join}
use agentroll.Evolution.Fetch.{add_value, fetch_langfuse_scores}

-- isUpperBoundMetric.
unfoldable pub is_upper_bound_metric : String → Bool
is_upper_bound_metric name =
    any_of (λ kw. contains kw (to_lower name))
      ("latency" ∷ "cost" ∷ "token" ∷ "error" ∷ "fail" ∷ [])

abbrev pub is_successful : AnalysisRun → Bool
is_successful run = elim run.phase [ successful ↦ true | _ ↦ false ]

-- `for k, v := range tuned { thresholds[k] = v }`.
unfoldable pub store_all : Dict String → Dict String → Dict String
store_all thresholds [] = thresholds
store_all thresholds ((k, v) ∷ tuned) = store_all (insert k v thresholds) tuned

module _ {F : Type 0} ⦃fl : Float64 F⦄ where
  -- The numbers of a metric's measurements; a text that does not parse is left out.
  unfoldable pub add_measurements : String → Dict (List F) → List Measurement → Dict (List F)
  add_measurements name values [] = values
  add_measurements name values (m ∷ ms) =
      add_measurements name
        (elim (if is_set m.value then fl.parse m.value else none) [
          | none ↦ values
          | some v ↦ add_value name v values
        ])
        ms

  unfoldable pub add_metrics : Dict (List F) → List MetricResult → Dict (List F)
  add_metrics values [] = values
  add_metrics values (mr ∷ metrics) =
      add_metrics (add_measurements mr.name values mr.measurements) metrics

  -- The loop over the runs: only those that passed count.
  unfoldable pub metric_values : Dict (List F) → List AnalysisRun → Dict (List F)
  metric_values values [] = values
  metric_values values (run ∷ runs) =
      metric_values (if is_successful run then add_metrics values run.metric_results else values)
        runs

  -- The new threshold of a metric: the mean, and one and a half deviations above or below it.
  unfoldable pub new_threshold : String → List F → F
  new_threshold name vals =
      let (mean, stddev) = compute_stats vals in
      let margin = fl.mul (fl.ratio 15 10) stddev in
      let lower = fl.sub mean margin in
      if is_upper_bound_metric name
      then fl.add mean margin
      else if fl.lt lower zero_f
      then zero_f
      else lower

  -- The loop over the metrics. Go visits them in an order of its own.
  unfoldable pub tuned_metrics : Dict (List F) → Dict String
  tuned_metrics [] = []
  tuned_metrics ((name, vals) ∷ values) =
      let rest = tuned_metrics values in
      if ltb (length vals) 3
      then rest
      else (name, fl.format "%.4f" (new_threshold name vals)) ∷ rest

  unfoldable pub store_thresholds : Dict String → AgentDeployment F → AgentDeployment F
  store_thresholds tuned =
      with_evolution λ ev. record ev { tuned_thresholds = store_all ev.tuned_thresholds tuned }

-- An error is logged, and leaves no values.
abbrev pub values_or_none : {F : Type 0} → Result (Dict (List F)) → Dict (List F)
values_or_none (ok values) = values
values_or_none (err e) = []

-- The text of the proposal.
unfoldable pub tuner_proposal : Dict String → String
tuner_proposal tuned =
    "threshold-tuner: adjusted " <> join ", " (sort_texts (map (λ t. t.0 <> "→" <> t.1) tuned))

module _ {F : Type 0} (env : Env F) where
  -- The fallback on Langfuse, whose errors are logged only.
  unfoldable pub fallback_values : Option LangfuseSpec → Exec F (Dict (List F))
  fallback_values none = pure []
  fallback_values (some lf) = do
    a ← gets (λ w. w.agent)
    found ← try (fetch_langfuse_scores env a lf)
    pure (values_or_none found)

  unfoldable pub propose_tuned : ⦃fl : Float64 F⦄ → Dict String → Exec F String
  propose_tuned tuned =
      if is_empty tuned
      then pure ""
      else (do modify (store_thresholds tuned); pure (tuner_proposal tuned))

  -- The List of the AnalysisRuns of the agent, which three strategies begin with.
  unfoldable pub list_runs : Exec F (List AnalysisRun)
  list_runs = do
    a ← gets (λ w. w.agent)
    wrapping "listing AnalysisRuns" (ask Kind.analysis_runs a.name env.list_analysis_runs)

  -- runThresholdTuner.
  unfoldable pub run_threshold_tuner : ⦃fl : Float64 F⦄ → Exec F String
  run_threshold_tuner = do
    a ← gets (λ w. w.agent)
    runs ← list_runs
    let measured = metric_values [] runs
    if is_empty runs then pure "" else (do
      values ←
          if is_empty measured
          then fallback_values (langfuse_of a.spec.observability)
          else pure measured
      propose_tuned (tuned_metrics values))
