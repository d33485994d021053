-- ===== src/Evolution/Thresholds.antt =====
-- What the threshold tuner writes.
use agentroll.Prelude.{
  ◌≡◌, refl, ◌∙◌, ap, String, Option, none, some, List, [], ◌∷◌, Dict, lookup, insert,
  lookup-insert, length, ltb, eq_iff, arith, if◌then◌else◌, if-elim,
}
use agentroll.Float.{Float64, zero_f}
use agentroll.Stats.{compute_stats}
use agentroll.Api.{AgentDeployment}
use agentroll.Kube.{AnalysisRun, Measurement, MetricResult}
use agentroll.Scorecard.{evolution_or_new}
use agentroll.Evolution.Fetch.{add_value}
use agentroll.Evolution.Tuner.{
  is_upper_bound_metric, is_successful, add_measurements, add_metrics, metric_values, new_threshold,
  tuned_metrics, store_all, store_thresholds,
}
use agentroll.Evolution.Numbers.{list_or_empty, numbers, values_at-metric_values}

module _ {ℓ} {V : Type ℓ} where
  -- No key twice, as in a map of Go.
  abbrev pub Distinct : Dict V → Type ℓ
  Distinct [] = Unit
  Distinct (entry ∷ entries) = (lookup entry.0 entries ≡ none) × Distinct entries

  insert-Distinct :
      (key : String) (v : V) (entries : Dict V) → Distinct entries → Distinct (insert key v entries)
  unfolding insert lookup
  insert-Distinct key v [] _ = (refl, tt)
  insert-Distinct key v (entry ∷ entries) (p, ps) = ground (
    arith,
    eq_iff entry.0 key,
    eq_iff key entry.0,
    p,
    lookup-insert key entry.0 v entries,
    insert-Distinct key v entries ps,
  )

module _ {F : Type 0} where
  add_value-Distinct :
      (key : String) (v : F) (values : Dict (List F))
      → Distinct values
      → Distinct (add_value key v values)
  unfolding add_value
  add_value-Distinct key v values d = insert-Distinct key _ values d

module _ {F : Type 0} ⦃fl : Float64 F⦄ where
  add_parsed-Distinct :
      (name : String) (o : Option F) (values : Dict (List F))
      → Distinct values
      → Distinct (elim o [ none ↦ values | some v ↦ add_value name v values ])
  add_parsed-Distinct name none values d = d
  add_parsed-Distinct name (some v) values d = add_value-Distinct name v values d

  measurements-Distinct :
      (name : String) (ms : List Measurement) (values : Dict (List F))
      → Distinct values
      → Distinct (add_measurements name values ms)
  unfolding add_measurements
  measurements-Distinct name [] values d = d
  measurements-Distinct name (m ∷ ms) values d =
      measurements-Distinct name ms _ (add_parsed-Distinct name _ values d)

  metrics-Distinct :
      (metrics : List MetricResult) (values : Dict (List F))
      → Distinct values
      → Distinct (add_metrics values metrics)
  unfolding add_metrics
  metrics-Distinct [] values d = d
  metrics-Distinct (mr ∷ metrics) values d =
      metrics-Distinct metrics _ (measurements-Distinct mr.name mr.measurements values d)

  metric_values-Distinct :
      (runs : List AnalysisRun) (values : Dict (List F))
      → Distinct values
      → Distinct (metric_values values runs)
  unfolding metric_values
  metric_values-Distinct [] values d = d
  metric_values-Distinct (run ∷ runs) values d = metric_values-Distinct runs _ (
      if-elim Distinct (is_successful run) _ _ (λ _. metrics-Distinct run.metric_results values d)
        (λ _. d))

  abbrev pub at_least_zero : F → F
  at_least_zero x = if fl.lt x zero_f then zero_f else x

  -- The threshold of a metric with this mean and standard deviation: one and a half deviations above
  -- the mean of a metric that must stay low, and as much below the mean of another, zero at least.
  abbrev pub bound_at : String → F × F → F
  bound_at key (mean, stddev) =
      if is_upper_bound_metric key
      then fl.add mean (fl.mul (fl.ratio 15 10) stddev)
      else at_least_zero (fl.sub mean (fl.mul (fl.ratio 15 10) stddev))

  -- The text of the threshold of a metric with these values: none below three.
  abbrev pub tuned_from : String → List F → Option String
  tuned_from key vals =
      if ltb (length vals) 3
      then none
      else some (fl.format "%.4f" (bound_at key (compute_stats vals)))

  tuned_metrics-lookup :
      (key : String) (values : Dict (List F))
      → Distinct values
      → lookup key (tuned_metrics values) ≡ tuned_from key (list_or_empty (lookup key values))
  unfolding tuned_metrics lookup new_threshold
  tuned_metrics-lookup key [] _ = refl
  tuned_metrics-lookup key ((name, vals) ∷ values) (p, ps) =
      ground (arith, eq_iff name key, p, tuned_metrics-lookup key values ps)

  tuned_metrics-Distinct :
      (values : Dict (List F)) → Distinct values → Distinct (tuned_metrics values)
  unfolding tuned_metrics
  tuned_metrics-Distinct [] _ = tt
  tuned_metrics-Distinct ((name, vals) ∷ values) (p, ps) =
      if-elim Distinct (ltb (length vals) 3) _ _ (λ _. tuned_metrics-Distinct values ps)
        (λ _. (
          tuned_metrics-lookup name values ps ∙ ap (λ o. tuned_from name (list_or_empty o)) p,
          tuned_metrics-Distinct values ps,
        ))

-- The old value, unless there is a new one.
abbrev pub updated : Option String → Option String → Option String
updated old none = old
updated old (some v) = some v

store_all-lookup :
    (key : String) (thresholds tuned : Dict String)
    → Distinct tuned
    → lookup key (store_all thresholds tuned) ≡ updated (lookup key thresholds) (lookup key tuned)
unfolding store_all lookup
store_all-lookup key thresholds [] _ = refl
store_all-lookup key thresholds ((k, v) ∷ tuned) (p, ps) = ground (
  arith,
  eq_iff k key,
  p,
  lookup-insert k key v thresholds,
  store_all-lookup key (insert k v thresholds) tuned ps,
)

-- The thresholds in the status, none when there is no status.evolution.
abbrev pub thresholds_of : {F : Type 0} ⦃fl : Float64 F⦄ → AgentDeployment F → Dict String
thresholds_of a = (evolution_or_new a.status.evolution).tuned_thresholds

module _ {F : Type 0} ⦃fl : Float64 F⦄ where
  -- The thresholds after the pass of the tuner that reads these AnalysisRuns.
  abbrev pub after_tuning : List AnalysisRun → AgentDeployment F → Dict String
  after_tuning runs a =
      let values : Dict (List F) = metric_values [] runs in
      thresholds_of (store_thresholds (tuned_metrics values) a)

  -- Storing what the tuner makes of the AnalysisRuns gives every metric whose successful runs have at
  -- least three numbers, by their measurements, the threshold that the mean and the deviation of those
  -- numbers set, and leaves every other threshold as it was.
  pub store_thresholds-tuned :
      (key : String) (runs : List AnalysisRun) (a : AgentDeployment F)
      → lookup key (after_tuning runs a)
        ≡ updated (lookup key (thresholds_of a)) (tuned_from {F = F} key (numbers key runs))
  unfolding store_thresholds lookup
  store_thresholds-tuned key runs a =
      let values : Dict (List F) = metric_values [] runs in
      let distinct = metric_values-Distinct runs [] tt in
      store_all-lookup key (thresholds_of a) (tuned_metrics values)
        (tuned_metrics-Distinct values distinct)
      ∙ ap (updated (lookup key (thresholds_of a))) (
          tuned_metrics-lookup key values distinct
          ∙ ap (tuned_from {F = F} key) (values_at-metric_values key runs []))
