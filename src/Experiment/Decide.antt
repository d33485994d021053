-- ===== src/Experiment/Decide.antt =====
-- What evaluateExperiment and evaluateToolExperiment compute before they write: the scores, the
-- t-test and the decision. The two functions repeat this text word for word.
use agentroll.Prelude.{
  ℕ, Bool, ◌&&◌, String, ◌<>◌, Option, none, some, List, length, ltb, decimal, if◌then◌else◌,
}
use agentroll.Float.{Float64}
use agentroll.Stats.{
  collect_variant_scores, collect_control_scores, welch_t_test, mean_and_variance,
}
use agentroll.Api.{EvalHistoryEntry, ExperimentStatus}

pub data Decision : Type 0 where
  waiting promote reject : Decision

module _ {F : Type 0} ⦃fl : Float64 F⦄ where
  -- `variantBetter && pValue < 0.05`.
  unfoldable pub verdict : F × Bool → Decision
  verdict (p, better) = if better && fl.lt p (fl.ratio 5 100) then promote else reject

  unfoldable pub with_scores : List F → ExperimentStatus F → ExperimentStatus F
  with_scores scores st = record st { variant_scores = scores }

  unfoldable pub with_test : List F → List F → F → ExperimentStatus F → ExperimentStatus F
  with_test variant control p st = record st {
    variant_scores = variant;
    variant_mean_score = (mean_and_variance variant).0;
    control_mean_score = (mean_and_variance control).0;
    p_value = p;
  }

  -- The status with the collected scores, and with the test's result once there are enough.
  unfoldable pub assess :
      List (EvalHistoryEntry F) → ℕ → ℕ → ExperimentStatus F → ExperimentStatus F × Decision
  unfolding verdict with_scores with_test
  assess history started_at min_samples st =
      let variant = collect_variant_scores history started_at in
      let control = collect_control_scores history started_at in
      let test = welch_t_test variant control in
      if ltb (length variant) min_samples
      then (with_scores variant st, waiting)
      else if ltb (length control) 2
      then (with_scores variant st, waiting)
      else (with_test variant control test.0 st, verdict test)

-- `if ev != nil && ev.…MinSamples != nil { return *ev.…MinSamples }; return 5`.
abbrev pub value_or_5 : Option ℕ → ℕ
value_or_5 none = 5
value_or_5 (some n) = n

-- "Testing started: collecting judge scores (min=%d)".
abbrev pub started_message : ℕ → String
started_message min_samples =
    "Testing started: collecting judge scores (min=" <> decimal min_samples <> ")"
