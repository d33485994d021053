-- ===== src/Evolution/Fetch.antt =====
-- fetchLangfuseScores, normalizeLangfuseScoreName and fetchLangfuseFailingTraces of
-- internal/controller/evolution.go.
use Prim.Native.String.{len, slice}
use agentroll.Prelude.{
  ℕ, ◌+◌, String, ◌<>◌, none, some, List, [], ◌∷◌, ◌++◌, Dict, lookup, insert, decimal, has_prefix,
  is_set, ltb, ◌==◌, if◌then◌else◌,
}
use agentroll.Api.{AgentDeployment, LangfuseSpec}
use agentroll.Kube.{Env, Trace}
use agentroll.Kube.Exec.{Exec, pure, wrapping, ◌>>=◌}
use agentroll.Langfuse.{langfuse_get, decoded}
use agentroll.Evaluation.Scores.{scores_error}

-- normalizeLangfuseScoreName.
unfoldable pub normalize_langfuse_score_name : String → String
normalize_langfuse_score_name name =
    if name == "avg_latency"
    then "max_latency_ms"
    else if name == "tool_success_rate"
    then "min_success_rate"
    else if name == "hallucination_rate"
    then "max_hallucination_rate"
    else if has_prefix "tool_success_rate_" name
    then "min_" <> name
    else name

module _ {F : Type 0} where
  -- `m[key] = append(m[key], v)`.
  unfoldable pub add_value : String → F → Dict (List F) → Dict (List F)
  add_value key v values =
      insert key (elim (lookup key values) [ none ↦ v ∷ [] | some vs ↦ vs ++ v ∷ [] ]) values

  -- The loop of fetchLangfuseScores.
  unfoldable pub score_values : Dict (List F) → List (String × F) → Dict (List F)
  score_values out [] = out
  score_values out ((name, v) ∷ scores) =
      score_values (add_value (normalize_langfuse_score_name name) v out) scores

-- `if len(out) > 300 { out = out[:300] + "..." }`, at a text whose 300th byte ends a character.
unfoldable pub snippet : String → String
snippet out = if ltb 300 (len out) then slice out 0 300 <> "..." else out

-- The loop over the traces, from the number of the first.
unfoldable pub trace_texts : ℕ → List Trace → String
trace_texts i [] = ""
trace_texts i (t ∷ traces) =
    "Trace "
    <> decimal i
    <> " (id="
    <> t.id
    <> "):\n"
    <> (if is_set t.output then "  output: " <> snippet t.output <> "\n" else "")
    <> trace_texts (i + 1) traces

abbrev traces_error : String → ℕ → String → String
traces_error url status body =
    "Langfuse API " <> url <> " returned " <> decimal status <> ": " <> body

module _ {F : Type 0} (env : Env F) where
  -- fetchLangfuseScores.
  unfoldable pub fetch_langfuse_scores : AgentDeployment F → LangfuseSpec → Exec F (Dict (List F))
  fetch_langfuse_scores a lf =
      if is_set lf.secret_ref
      then (do
        body ← langfuse_get env a lf "/api/public/scores?limit=100" scores_error
        scores ← wrapping "parsing Langfuse scores response" (decoded env (env.codec.scores body))
        pure (score_values [] scores))
      else pure []

  -- fetchLangfuseFailingTraces.
  unfoldable pub fetch_langfuse_failing_traces : AgentDeployment F → LangfuseSpec → Exec F String
  fetch_langfuse_failing_traces a lf =
      if is_set lf.secret_ref
      then (do
        body ←
            langfuse_get env a lf
              ("/api/public/traces?tags=canary:" <> a.status.canary_version <> "&limit=5")
              traces_error
        traces ← decoded env (env.codec.traces body)
        pure (trace_texts 1 traces))
      else pure ""
