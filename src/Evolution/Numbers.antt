-- ===== src/Evolution/Numbers.antt =====
-- The numbers that runThresholdTuner of internal/controller/evolution.go collects for a metric.
use agentroll.Prelude.{
  ◌≡◌, refl, ◌∙◌, ap, sym, Bool, true, false, String, Option, none, some, List, [], ◌∷◌, ◌++◌, ◌==◌,
  Dict, lookup, lookup-insert, is_set, eq_iff, Bool-cases, inl, inr, if◌then◌else◌,
}
use mathlib.Core.List.{append_assoc, append-nil}
use agentroll.Float.{Float64}
use agentroll.Kube.{
  AnalysisRun, AnalysisPhase, successful, failed_run, other_run, Measurement, MetricResult,
}
use agentroll.Evolution.Fetch.{add_value}
use agentroll.Evolution.Tuner.{add_measurements, add_metrics, metric_values}

module _ {A : Type 0} where
  -- A list, where a test holds.
  abbrev kept_if : Bool → List A → List A
  kept_if b xs = if b then xs else []

  kept_if-append : (b : Bool) (xs ys : List A) → kept_if b (xs ++ ys) ≡ kept_if b xs ++ kept_if b ys
  kept_if-append true xs ys = refl
  kept_if-append false xs ys = refl

  kept_if-nil : (b : Bool) → kept_if b [] ≡ []
  kept_if-nil true = refl
  kept_if-nil false = refl

  -- The list of a missing entry is empty.
  abbrev pub list_or_empty : Option (List A) → List A
  list_or_empty none = []
  list_or_empty (some xs) = xs

  abbrev values_at : String → Dict (List A) → List A
  values_at key values = list_or_empty (lookup key values)

  appended :
      (v : A) (o : Option (List A))
      → list_or_empty (some (elim o [ none ↦ v ∷ [] | some vs ↦ vs ++ v ∷ [] ]))
        ≡ list_or_empty o ++ v ∷ []
  appended v none = refl
  appended v (some vs) = refl

  values_at-add_value :
      (key name : String) (v : A) (values : Dict (List A))
      → values_at key (add_value name v values)
        ≡ values_at key values ++ kept_if (name == key) (v ∷ [])
  unfolding add_value
  values_at-add_value key name v values =
      rw (lookup-insert name key _ values) (elim (Bool-cases (name == key)) [
        | inl e ↦ rw (e, (eq_iff name key).0 e) (appended v (lookup key values))
        | inr e ↦ rw e (sym (append-nil (values_at key values)))
      ])

module _ {F : Type 0} ⦃fl : Float64 F⦄ where
  -- The numbers of the measurements whose text is one.
  abbrev pub with_parsed : Option F → List F → List F
  with_parsed none rest = rest
  with_parsed (some v) rest = v ∷ rest

  abbrev pub parsed : List Measurement → List F
  parsed [] = []
  parsed (m ∷ ms) = with_parsed (if is_set m.value then fl.parse m.value else none) (parsed ms)

  -- The numbers of the results that a metric has.
  abbrev pub of_metrics : String → List MetricResult → List F
  of_metrics key [] = []
  of_metrics key (mr ∷ metrics) =
      kept_if (mr.name == key) (parsed mr.measurements) ++ of_metrics key metrics

  -- Only a run that ended as successful counts.
  abbrev pub of_phase : AnalysisPhase → List F → List F
  of_phase successful xs = xs
  of_phase failed_run xs = []
  of_phase (other_run _) xs = []

  -- The numbers that the successful runs have for a metric, oldest run of the list first.
  abbrev pub numbers : String → List AnalysisRun → List F
  numbers key [] = []
  numbers key (run ∷ runs) =
      of_phase run.phase (of_metrics key run.metric_results) ++ numbers key runs

  values_at-with_parsed :
      (key name : String) (o : Option F) (rest : List F) (values : Dict (List F))
      → values_at key (elim o [ none ↦ values | some v ↦ add_value name v values ])
          ++ kept_if (name == key) rest
        ≡ values_at key values ++ kept_if (name == key) (with_parsed o rest)
  values_at-with_parsed key name none rest values = refl
  values_at-with_parsed key name (some v) rest values =
      rw (kept_if-append (name == key) (v ∷ []) rest) (
        ap (λ l. l ++ kept_if (name == key) rest) (values_at-add_value key name v values)
        ∙ append_assoc (values_at key values) _ _)

  values_at-measurements :
      (key name : String) (ms : List Measurement) (values : Dict (List F))
      → values_at key (add_measurements name values ms)
        ≡ values_at key values ++ kept_if (name == key) (parsed ms)
  unfolding add_measurements
  values_at-measurements key name [] values =
      rw (kept_if-nil {A = F} (name == key)) (sym (append-nil (values_at key values)))
  values_at-measurements key name (m ∷ ms) values =
      values_at-measurements key name ms _ ∙ values_at-with_parsed key name _ (parsed ms) values

  values_at-metrics :
      (key : String) (metrics : List MetricResult) (values : Dict (List F))
      → values_at key (add_metrics values metrics) ≡ values_at key values ++ of_metrics key metrics
  unfolding add_metrics
  values_at-metrics key [] values = sym (append-nil (values_at key values))
  values_at-metrics key (mr ∷ metrics) values =
      values_at-metrics key metrics _
      ∙ ap (λ l. l ++ of_metrics key metrics)
          (values_at-measurements key mr.name mr.measurements values)
      ∙ append_assoc (values_at key values) _ _

  counted :
      (key : String) (p : AnalysisPhase) (metrics : List MetricResult) (values : Dict (List F))
      → values_at key (
          if (elim p [ successful ↦ true | _ ↦ false ]) then add_metrics values metrics else values)
        ≡ values_at key values ++ of_phase p (of_metrics key metrics)
  counted key successful metrics values = values_at-metrics key metrics values
  counted key failed_run metrics values = sym (append-nil (values_at key values))
  counted key (other_run _) metrics values = sym (append-nil (values_at key values))

  -- Every number of the successful runs is collected, in order, and no other.
  pub values_at-metric_values :
      (key : String) (runs : List AnalysisRun) (values : Dict (List F))
      → values_at key (metric_values values runs) ≡ values_at key values ++ numbers key runs
  unfolding metric_values
  values_at-metric_values key [] values = sym (append-nil (values_at key values))
  values_at-metric_values key (run ∷ runs) values =
      values_at-metric_values key runs _
      ∙ ap (λ l. l ++ numbers key runs) (counted key run.phase run.metric_results values)
      ∙ append_assoc (values_at key values) _ _
