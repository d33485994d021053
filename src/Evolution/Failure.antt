-- ===== src/Evolution/Failure.antt =====
-- buildFailureContext of internal/controller/evolution.go.
use agentroll.Prelude.{
  Bool, true, false, String, ◌<>◌, Option, none, some, List, [], ◌∷◌, ltb, is_set, if◌then◌else◌,
}
use agentroll.Api.{AgentDeployment}
use agentroll.Kube.{
  Env, AnalysisPhase, successful, failed_run, other_run, Measurement, MetricResult, AnalysisRun,
}
use agentroll.Kube.Exec.{Exec, pure, gets, ◌>>=◌}
use agentroll.Evolution.Tuner.{list_runs}

abbrev pub is_failed_run : AnalysisPhase → Bool
is_failed_run failed_run = true
is_failed_run _ = false

abbrev phase_text : AnalysisPhase → String
phase_text successful = "Successful"
phase_text failed_run = "Failed"
phase_text (other_run text) = text

-- `if latestFailed == nil || ar.CreationTimestamp.After(latestFailed…) { latestFailed = ar }`.
abbrev pub newer_of : Option AnalysisRun → AnalysisRun → AnalysisRun
newer_of none run = run
newer_of (some latest) run = if ltb latest.created_at run.created_at then run else latest

-- The loop over the runs, with the newest failed run so far.
unfoldable pub latest_failed : Option AnalysisRun → List AnalysisRun → Option AnalysisRun
latest_failed latest [] = latest
latest_failed latest (run ∷ runs) =
    latest_failed (if is_failed_run run.phase then some (newer_of latest run) else latest) runs

unfoldable pub last_measurement : Option Measurement → List Measurement → Option Measurement
last_measurement last [] = last
last_measurement last (m ∷ ms) = last_measurement (some m) ms

unfoldable pub measurement_text : Option Measurement → String
measurement_text none = ""
measurement_text (some m) =
    (if is_set m.value then ", measured=" <> m.value else "")
    <> (if is_set m.message then ", message=" <> m.message else "")

-- The loop over the metrics of the run.
unfoldable pub metric_texts : List MetricResult → String
metric_texts [] = ""
metric_texts (mr ∷ metrics) =
    let rest = metric_texts metrics in
    if is_failed_run mr.phase
    then "  - "
      <> mr.name
      <> ": phase="
      <> phase_text mr.phase
      <> measurement_text (last_measurement none mr.measurements)
      <> "\n"
      <> rest
    else rest

module _ {F : Type 0} where
  unfoldable pub failure_text : AgentDeployment F → Option AnalysisRun → String
  failure_text a none = ""
  failure_text a (some run) =
      "Agent: "
      <> a.name
      <> "\nCanary version: "
      <> a.status.canary_version
      <> "\nAnalysisRun: "
      <> run.name
      <> "\nFailed metrics:\n"
      <> metric_texts run.metric_results

module _ {F : Type 0} (env : Env F) where
  -- buildFailureContext.
  unfoldable pub build_failure_context : Exec F String
  build_failure_context = do
    a ← gets (λ w. w.agent)
    runs ← list_runs env
    pure (failure_text a (latest_failed none runs))
