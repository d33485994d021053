-- ===== src/Tests/Histories.antt =====
-- The theorems on the histories of the status and on the scorecard, on the sample agent.
use agentroll.Prelude.{◌≡◌, ◌++◌, List, [], ◌∷◌, keep_last, map, arith}
use agentroll.Api.{EvalHistoryEntry}
use agentroll.Float.Milli.{pos, ℤ, milli}
use agentroll.History.{max_eval_history}
use agentroll.History.Bounds.{record_evaluations, record_evaluations_newest}
use agentroll.Scorecard.{
  most_recent_promotion_time, prompt_outcomes, tool_outcomes, compute_optimization_scorecard,
}
use agentroll.Scorecard.Laws.{
  IsLatest, promotions, rejections, most_recent_promotion_time-IsLatest, scorecard_counts,
}
use agentroll.Tests.Samples.{status, score}

record_evaluations_newest_example :
    (record_evaluations status (score 13 500 ∷ [])).eval_history
    ≡ keep_last max_eval_history (status.eval_history ++ score 13 500 ∷ [])
record_evaluations_newest_example =
    record_evaluations_newest status (score 13 500 ∷ []) (omega arith)

most_recent_promotion_time-IsLatest_example :
    IsLatest (most_recent_promotion_time status) (prompt_outcomes status ++ tool_outcomes status)
most_recent_promotion_time-IsLatest_example = most_recent_promotion_time-IsLatest status

scorecard_counts_example :
    let sc = compute_optimization_scorecard 20 status in
    let prompts = map (λ e. e.outcome) status.prompt_lineage in
    let tools = map (λ e. e.outcome) status.tool_lineage in
    (sc.prompt_promotions ≡ pos (promotions prompts))
    × (sc.prompt_rejections ≡ pos (rejections prompts))
    × (sc.tool_promotions ≡ pos (promotions tools))
    × (sc.tool_rejections ≡ pos (rejections tools))
scorecard_counts_example = scorecard_counts 20 status (omega arith) (omega arith)

abbrev fallen : List (EvalHistoryEntry ℤ)
fallen = score 1 900 ∷ score 2 900 ∷ score 3 900 ∷ score 11 100 ∷ score 12 100 ∷ score 13 100 ∷ []
