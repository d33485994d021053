-- ===== src/Scorecard.antt =====
-- internal/controller/optimization_scorecard.go: the summary of the optimization loop.
pub mod Laws
use agentroll.Prelude.{
  ℕ, ◌+◌, ◌-◌, ◌*◌, ◌%◌, ◌^◌, ◌<>◌, String, Bool, true, false, ◌||◌, Option, none, some, List, [],
  ◌∷◌, length, drop, take, ltb, filter_by, map, not, if◌then◌else◌,
}
use agentroll.Float.{Float64, zero_f, one_f, gt, neg}
use agentroll.Stats.{sum_from}
use agentroll.Api.{
  EvalHistoryEntry, PromptLineageEntry, ToolLineageEntry, Outcome, promoted, rejected, QualityTrend,
  improving, degrading, steady, OptimizationScorecard, EvolutionStatus, AgentDeploymentStatus,
  AgentDeployment,
}
use agentroll.Int.{ℤ, pos, inc32}
use agentroll.Kube.{Env}
use agentroll.Kube.Exec.{Exec, pure, gets, modify, emit, warning, ◌>>=◌, ◌>>◌}

abbrev pub is_promoted : Outcome → Bool
is_promoted promoted = true
is_promoted rejected = false

-- `if outcome == "promoted" { promotions++ } else { rejections++ }` along a lineage.
unfoldable pub count_outcomes : ℤ × ℤ → List Outcome → ℤ × ℤ
count_outcomes counts [] = counts
count_outcomes (yes_count, no_count) (o ∷ rest) =
    count_outcomes
      (if is_promoted o then (inc32 yes_count, no_count) else (yes_count, inc32 no_count)) rest

-- `if latest == nil || t.After(latest) { latest = &t }` at the promoted entries.
unfoldable pub latest_from : Option ℕ → List (Outcome × ℕ) → Option ℕ
latest_from latest [] = latest
latest_from latest ((o, at) ∷ rest) =
    latest_from
      (if is_promoted o
        then elim latest [ none ↦ some at | some t ↦ if ltb t at then some at else some t ]
        else latest)
      rest

-- `7*24*time.Hour`, in nanoseconds.
abbrev pub seven_days : ℕ
seven_days = 7 * 24 * 3600 * 10 ^ 9

abbrev trend_text : QualityTrend → String
trend_text improving = "improving"
trend_text degrading = "degrading"
trend_text steady = "stable"

module _ {F : Type 0} ⦃fl : Float64 F⦄ where
  abbrev pub scores_of : List (EvalHistoryEntry F) → List F
  scores_of history = map (λ e. e.quality_score) history

  -- computeQualityTrend.
  unfoldable pub compute_quality_trend : List (EvalHistoryEntry F) → QualityTrend
  unfolding sum_from
  compute_quality_trend history =
      let older = take 3 (drop (length history - 6) history) in
      let recent = drop (length history - 3) history in
      let delta =
        fl.div (fl.sub (sum_from zero_f (scores_of recent)) (sum_from zero_f (scores_of older)))
          (fl.of_nat 3) in
      if ltb (length history) 6
      then steady
      else if gt delta (fl.ratio 2 100)
      then improving
      else if fl.lt delta (neg (fl.ratio 2 100))
      then degrading
      else steady

  -- `e.At.Before(&lastPromotionAt)` and its complement.
  unfoldable pub before_promotion : ℕ → List (EvalHistoryEntry F) → List (EvalHistoryEntry F)
  before_promotion last_promotion_at = filter_by (λ e. ltb e.at last_promotion_at)

  unfoldable pub after_promotion : ℕ → List (EvalHistoryEntry F) → List (EvalHistoryEntry F)
  after_promotion last_promotion_at = filter_by (λ e. not (ltb e.at last_promotion_at))

  -- detectRegression.
  unfoldable pub detect_regression : List (EvalHistoryEntry F) → ℕ → F → Bool
  detect_regression history last_promotion_at threshold =
      let pre = scores_of (before_promotion last_promotion_at history) in
      let post = scores_of (after_promotion last_promotion_at history) in
      let pre_mean = fl.div (sum_from zero_f pre) (fl.of_nat (length pre)) in
      let post_mean = fl.div (sum_from zero_f post) (fl.of_nat (length post)) in
      if ltb (length pre) 3 || ltb (length post) 3
      then false
      else if fl.eq pre_mean zero_f
      then false
      else fl.lt post_mean (fl.mul pre_mean (fl.sub one_f threshold))

  -- meanQualityInWindow: `cutoff := now - duration`, in nanoseconds. A window that reaches back past
  -- time 0 begins at time 0.
  unfoldable pub mean_quality_in_window : ℕ → List (EvalHistoryEntry F) → ℕ → F
  mean_quality_in_window now history duration =
      let inside = scores_of (filter_by (λ e. ltb (now - duration) e.at) history) in
      elim inside [
        | [] ↦ zero_f
        | s ∷ rest ↦ fl.div (sum_from zero_f (s ∷ rest)) (fl.of_nat (length (s ∷ rest)))
      ]

  abbrev pub prompt_outcomes : AgentDeploymentStatus F → List (Outcome × ℕ)
  prompt_outcomes status = map (λ e. (e.outcome, e.at)) status.prompt_lineage

  abbrev pub tool_outcomes : AgentDeploymentStatus F → List (Outcome × ℕ)
  tool_outcomes status = map (λ e. (e.outcome, e.at)) status.tool_lineage

  -- mostRecentPromotionTime.
  unfoldable pub most_recent_promotion_time : AgentDeploymentStatus F → Option ℕ
  unfolding latest_from
  most_recent_promotion_time status =
      latest_from (latest_from none (prompt_outcomes status)) (tool_outcomes status)

  -- computeOptimizationScorecard.
  unfoldable pub compute_optimization_scorecard :
      ℕ → AgentDeploymentStatus F → OptimizationScorecard F
  unfolding count_outcomes most_recent_promotion_time
  compute_optimization_scorecard now status =
      let prompts = count_outcomes (pos 0, pos 0) (map (λ e. e.outcome) status.prompt_lineage) in
      let tools = count_outcomes (pos 0, pos 0) (map (λ e. e.outcome) status.tool_lineage) in
      record {
        prompt_promotions = prompts.0;
        prompt_rejections = prompts.1;
        tool_promotions = tools.0;
        tool_rejections = tools.1;
        quality_trend = compute_quality_trend status.eval_history;
        mean_quality_last_7_days = mean_quality_in_window now status.eval_history seven_days;
        regression_detected = elim (most_recent_promotion_time status) [
          | none ↦ false
          | some at ↦ detect_regression status.eval_history at (fl.ratio 10 100)
        ];
        updated_at = now;
      }

  -- `&agentrollv1alpha1.EvolutionStatus{}`.
  abbrev pub empty_evolution : EvolutionStatus F
  empty_evolution = record {
    last_proposal = "";
    proposal_count = pos 0;
    last_proposal_at = none;
    next_eval_at = none;
    tuned_thresholds = [];
    history = [];
    optimization_generation = pos 0;
    scorecard = none;
    dspy_job_name = "";
  }

  -- `if status.Evolution == nil { status.Evolution = &EvolutionStatus{} }`.
  abbrev pub evolution_or_new : Option (EvolutionStatus F) → EvolutionStatus F
  evolution_or_new none = empty_evolution
  evolution_or_new (some ev) = ev

  abbrev pub with_evolution :
      (EvolutionStatus F → EvolutionStatus F) → AgentDeployment F → AgentDeployment F
  with_evolution f a = record a {
    status = record a.status { evolution = some (f (evolution_or_new a.status.evolution)) };
  }

  -- incrementOptimizationGeneration.
  unfoldable pub increment_optimization_generation : AgentDeployment F → AgentDeployment F
  increment_optimization_generation =
      with_evolution λ ev. record ev { optimization_generation = inc32 ev.optimization_generation }

  -- reconcileOptimizationScorecard.
  unfoldable pub reconcile_optimization_scorecard : Env F → Exec F (Unit {0})
  unfolding compute_optimization_scorecard
  reconcile_optimization_scorecard env = do
    sc ← gets (λ w. compute_optimization_scorecard env.now w.agent.status)
    modify (with_evolution λ ev. record ev { scorecard = some sc })
    if sc.regression_detected
        then emit warning "OptimizationRegression" (
            "Quality regression detected after most recent promotion (trend: "
            <> trend_text sc.quality_trend
            <> ", 7d mean: "
            <> fl.format "%.3f" sc.mean_quality_last_7_days
            <> "). Consider reverting the most recent promotion.")
        else pure tt
