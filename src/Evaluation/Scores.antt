-- ===== src/Evaluation/Scores.antt =====
-- reconcileEvalHistory, fetchJudgeScoresFromLangfuse and parseCompositeVersionFromComment of
-- internal/controller/evaluation.go.
use agentroll.Prelude.{
  ℕ, Bool, ◌&&◌, String, ◌<>◌, Option, none, some, List, [], ◌∷◌, decimal, fields, cut_prefix,
  is_set, any_of, ◌==◌, if◌then◌else◌,
}
use agentroll.Float.{Float64, ge}
use agentroll.Api.{
  AgentDeployment, AgentDeploymentStatus, EvalHistoryEntry, EvaluationSpec, LangfuseSpec,
}
use agentroll.Kube.{Env, JudgeScore}
use agentroll.Kube.Exec.{Exec, pure, gets, wrapping, modify, ◌>>=◌}
use agentroll.History.{append_eval_history}
use agentroll.Langfuse.{langfuse_get, decoded}
use agentroll.Rollout.Steps.{langfuse_of}

-- The first word with the prefix "cv=".
unfoldable pub version_word : List String → String
version_word [] = ""
version_word (part ∷ parts) =
    let later = version_word parts in
    elim (cut_prefix "cv=" part) [ none ↦ later | some version ↦ version ]

-- parseCompositeVersionFromComment.
unfoldable pub parse_composite_version_from_comment : String → String
unfolding version_word
parse_composite_version_from_comment comment = version_word (fields comment)

abbrev pub scores_error : String → ℕ → String → String
scores_error url status body = "Langfuse scores API returned " <> decimal status <> ": " <> body

-- `if t, err := time.Parse(…); err == nil { at = t } else { at = metav1.Now() }`.
abbrev pub time_or_now : ℕ → Option ℕ → ℕ
time_or_now now none = now
time_or_now now (some at) = at

module _ {F : Type 0} ⦃fl : Float64 F⦄ where
  -- `minScore`: 0.7 unless the evaluation sets a text that scans.
  unfoldable pub min_score : Option EvaluationSpec → F
  min_score none = fl.ratio 7 10
  min_score (some eval) =
      if is_set eval.min_score
      then elim (fl.scan eval.min_score) [ none ↦ fl.ratio 7 10 | some v ↦ v ]
      else fl.ratio 7 10

  -- The entry of one score.
  unfoldable pub judged : Env F → Option EvaluationSpec → String → JudgeScore F → EvalHistoryEntry F
  judged env eval version s = record {
    at = time_or_now env.now (env.codec.parse_time s.created_at);
    composite_version = version;
    quality_score = s.value;
    verdict = if ge s.value (min_score eval) then "pass" else "fail";
  }

  -- The loop over the answer: a score without a version is left out.
  unfoldable pub judge_entries :
      Env F → Option EvaluationSpec → List (JudgeScore F) → List (EvalHistoryEntry F)
  judge_entries env eval [] = []
  judge_entries env eval (s ∷ scores) =
      let rest = judge_entries env eval scores in
      let version = parse_composite_version_from_comment s.comment in
      if is_set version then judged env eval version s ∷ rest else rest

  -- The key of the set of what has been seen: version and score.
  abbrev pub same_key : EvalHistoryEntry F → EvalHistoryEntry F → Bool
  same_key e f = e.composite_version == f.composite_version && fl.eq e.quality_score f.quality_score

  abbrev pub was_seen : EvalHistoryEntry F → List (EvalHistoryEntry F) → Bool
  was_seen entry seen = any_of (λ e. same_key e entry) seen

  -- The body of the loop: `if alreadySeen[k] { continue }`, or else an append and a mark.
  abbrev pub mark :
      EvalHistoryEntry F
      → List (EvalHistoryEntry F)
      → AgentDeploymentStatus F
      → List (EvalHistoryEntry F) × AgentDeploymentStatus F
  mark entry seen status =
      if was_seen entry seen
      then (seen, status)
      else (entry ∷ seen, append_eval_history status entry)

  -- The loop of reconcileEvalHistory, with the entries whose keys are in the set.
  unfoldable pub append_unseen :
      List (EvalHistoryEntry F)
      → AgentDeploymentStatus F
      → List (EvalHistoryEntry F)
      → AgentDeploymentStatus F
  append_unseen seen status [] = status
  append_unseen seen status (entry ∷ entries) =
      let (next_seen, next) = mark entry seen status in append_unseen next_seen next entries

  abbrev pub record_judgements : List (EvalHistoryEntry F) → AgentDeployment F → AgentDeployment F
  record_judgements entries a = record a {
    status = append_unseen a.status.eval_history a.status entries;
  }

module _ {F : Type 0} (env : Env F) where
  -- fetchJudgeScoresFromLangfuse.
  unfoldable pub fetch_judge_scores :
      ⦃fl : Float64 F⦄ → AgentDeployment F → LangfuseSpec → Exec F (List (EvalHistoryEntry F))
  fetch_judge_scores a lf =
      if is_set lf.secret_ref
      then (do
        body ←
            langfuse_get env a lf "/api/public/scores?name=judge_quality_score&limit=20"
              scores_error
        scores ←
            wrapping "parsing Langfuse scores response" (decoded env (env.codec.judge_scores body))
        pure (judge_entries env a.spec.evaluation scores))
      else pure []

  unfoldable pub history_for : ⦃fl : Float64 F⦄ → Option LangfuseSpec → Exec F (Unit {0})
  history_for none = pure tt
  history_for (some lf) = do
    a ← gets (λ w. w.agent)
    entries ← wrapping "fetching judge scores from Langfuse" (fetch_judge_scores a lf)
    modify (record_judgements entries)

  -- reconcileEvalHistory.
  unfoldable pub reconcile_eval_history : ⦃fl : Float64 F⦄ → Exec F (Unit {0})
  reconcile_eval_history = do
    a ← gets (λ w. w.agent)
    history_for (langfuse_of a.spec.observability)
