-- ===== src/Evolution/Optimizer.antt =====
-- runPromptOptimizer and writePromptToConfigMap of internal/controller/evolution.go.
use Prim.Native.String.{len}
use agentroll.Prelude.{
  String, ◌<>◌, Option, none, some, [], ◌∷◌, insert, decimal, is_set, if◌then◌else◌,
}
use agentroll.Api.{EvolutionSpec, EvolutionOptimizerSpec, GitHubSpec, LangfuseSpec}
use agentroll.Kube.{
  Env, Result, ok, err, is_not_found, error_text, wrap, Kind, ConfigMap, create_config_map,
  update_config_map,
}
use agentroll.Kube.Exec.{Exec, pure, raise, gets, try, wrapping, perform, ask, ◌>>=◌}
use agentroll.Langfuse.{read_secret_key}
use agentroll.Rollout.Steps.{langfuse_of}
use agentroll.Evolution.Fetch.{fetch_langfuse_failing_traces}
use agentroll.Evolution.Failure.{build_failure_context}
use agentroll.Evolution.Llm.{call_llm}
use agentroll.Evolution.GitHub.{github_of, open_evolution_pr}

abbrev optimizer_system_prompt : String
optimizer_system_prompt =
    "You are an expert AI agent prompt engineer.\n"
    <> "Analyse the following failure context from a canary deployment of an AI agent and suggest\n"
    <> "specific, actionable improvements to the agent's system prompt.\n\nFocus on:\n"
    <> "1. Reducing hallucinations or incorrect tool usage\n"
    <> "2. Improving response quality and relevance\n"
    <> "3. Better handling of edge cases that caused failures\n\n"
    <> "Provide concrete rewritten prompt fragments, not vague suggestions.\n"
    <> "Keep your response concise (under 500 words) and structured."

-- What `if err != nil` makes of the traces.
abbrev pub with_traces : String → Result String → String
with_traces context (ok traces) =
    if is_set traces
    then context <> "\n\nLangfuse trace samples from the failed canary:\n" <> traces
    else context
with_traces context (err e) = context

-- The proposal, for each way to deliver the suggestion.
abbrev pub pr_text : String → Result String → String
pr_text strategy (ok url) = strategy <> ": PR opened " <> url
pr_text strategy (err e) = strategy <> ": suggestion generated (PR failed: " <> error_text e <> ")"

abbrev written_text : String → String → Result (Unit {0}) → String
written_text config_map suggestion (ok _) =
    "prompt-optimizer: prompt written to ConfigMap "
    <> config_map
    <> " ("
    <> decimal (len suggestion)
    <> " chars)"
written_text config_map suggestion (err e) =
    "prompt-optimizer: suggestion generated (ConfigMap write failed: " <> error_text e <> ")"

module _ {F : Type 0} (env : Env F) where
  -- What the Get of the ConfigMap leads to.
  unfoldable pub store_prompt : String → String → Result ConfigMap → Exec F (Unit {0})
  store_prompt name prompt (ok cm) =
      perform env
        (update_config_map (record cm { entries = insert "system_prompt" prompt cm.entries }))
  store_prompt name prompt (err e) =
      if is_not_found e
      then perform env (
          create_config_map (record {
            name = name;
            resource_version = "";
            labels =
                ("app.kubernetes.io/managed-by", "agentroll")
                ∷ ("agentroll.dev/component", "prompt-store")
                ∷ [];
            entries = ("system_prompt", prompt) ∷ [];
          }))
      else raise (wrap ("get ConfigMap " <> name) e)

  -- writePromptToConfigMap.
  unfoldable pub write_prompt_to_config_map : String → String → Exec F (Unit {0})
  write_prompt_to_config_map name prompt = do
    found ← try (ask Kind.config_map name env.get_config_map)
    store_prompt name prompt found

  unfoldable pub enriched : String → Option LangfuseSpec → Exec F String
  enriched context none = pure context
  enriched context (some lf) = do
    a ← gets (λ w. w.agent)
    traces ← try (fetch_langfuse_failing_traces env a lf)
    pure (with_traces context traces)

  -- Where the suggestion goes: a pull request comes before the ConfigMap.
  unfoldable pub deliver : EvolutionSpec → Option GitHubSpec → String → Exec F String
  deliver ev (some gh) suggestion = do
    opened ← try (open_evolution_pr env gh "prompt-optimizer" suggestion)
    pure (pr_text "prompt-optimizer" opened)
  deliver ev none suggestion =
      if is_set ev.prompt_config_map
      then (do
        written ← try (write_prompt_to_config_map ev.prompt_config_map suggestion)
        pure (written_text ev.prompt_config_map suggestion written))
      else pure
          ("prompt-optimizer: suggestion generated (" <> decimal (len suggestion) <> " chars)")

  -- runPromptOptimizer.
  unfoldable pub run_prompt_optimizer : EvolutionSpec → EvolutionOptimizerSpec → Exec F String
  run_prompt_optimizer ev optimizer = do
    a ← gets (λ w. w.agent)
    failure ← wrapping "building failure context" (build_failure_context env)
    if is_set failure
        then (do
          context ← enriched failure (langfuse_of a.spec.observability)
          key ←
              wrapping "reading optimizer API key"
                (read_secret_key env a.namespace optimizer.secret_ref "API_KEY")
          suggestion ← wrapping "LLM call failed" (
              call_llm env optimizer.provider (record {
                model = optimizer.model;
                key = key;
                system = optimizer_system_prompt;
                user = "Failure context from the failed canary deployment:\n\n" <> context;
              }))
          deliver ev (github_of ev.human_approval) suggestion)
        else pure ""
