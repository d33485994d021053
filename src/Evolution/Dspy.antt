-- ===== src/Evolution/Dspy.antt =====
-- internal/controller/dspy_optimizer.go.
use agentroll.Prelude.{
  ℕ, ◌+◌, ◌/◌, ◌^◌, Bool, true, false, ◌||◌, String, ◌<>◌, Option, none, some, List, [], ◌∷◌, Dict,
  lookup, text_or_empty, decimal, quoted, length, ltb, is_set, or_default, trim_newlines,
  if◌then◌else◌,
}
use agentroll.Float.{Float64, ge}
use agentroll.Api.{
  EvolutionSpec, EvolutionOptimizerSpec, EvolutionStatus, EvalHistoryEntry, ExperimentPhase,
  PromptVariant, PromptVariantSpec, AgentDeployment,
}
use agentroll.Kube.{
  Env, Result, ok, err, is_not_found, wrap, Kind, ConfigMap, create_variant,
  patch_prompt_experiment,
}
use agentroll.Kube.Exec.{Exec, pure, raise, gets, try, wrapping, modify, perform, ask, ◌>>=◌, ◌>>◌}
use agentroll.Scorecard.{with_evolution}
use agentroll.Langfuse.{read_secret_key}
use agentroll.Evolution.Llm.{call_llm}

abbrev pub min_dspy_samples : ℕ
min_dspy_samples = 5

-- buildDspyOptimizerSystemPrompt.
abbrev pub dspy_system_prompt : String
dspy_system_prompt =
    "You are an expert AI agent system prompt optimizer using a DSPy-style approach.\n\n"
    <> "You will receive:\n"
    <> "1. A list of training examples showing prompt versions with their quality scores "
    <> "(0.0–1.0).\n2. The current system prompt (if known).\n\nYour task:\n"
    <> "- Analyse the quality pattern: which configurations passed vs. failed?\n"
    <> "- Identify what the failing configurations might be doing wrong.\n"
    <> "- Rewrite the system prompt to address those weaknesses and reinforce what works.\n\n"
    <> "Rules:\n- Output ONLY the new system prompt text — no explanation, no markdown, no "
    <> "preamble.\n- Keep the prompt concise and actionable (under 600 words).\n"
    <> "- Preserve the agent's core purpose; only improve clarity and robustness."

module _ {F : Type 0} ⦃fl : Float64 F⦄ where
  unfoldable pub verdict_of : EvalHistoryEntry F → String
  verdict_of e =
      if is_set e.verdict
      then e.verdict
      else if ge e.quality_score (fl.ratio 7 10)
      then "pass"
      else "fail"

  unfoldable pub example_lines : ℕ → List (EvalHistoryEntry F) → String
  example_lines i [] = ""
  example_lines i (e ∷ history) =
      "Example "
      <> decimal i
      <> ": version="
      <> e.composite_version
      <> " quality="
      <> fl.format "%.2f" e.quality_score
      <> " verdict="
      <> verdict_of e
      <> "\n"
      <> example_lines (i + 1) history

  -- buildDspyExamples.
  unfoldable pub build_dspy_examples : List (EvalHistoryEntry F) → String
  build_dspy_examples history = trim_newlines (example_lines 1 history)

  -- buildDspyOptimizerUserMessage.
  unfoldable pub dspy_user_message : String → List (EvalHistoryEntry F) → String
  dspy_user_message current_prompt history =
      "Training examples (composite version → quality score → verdict):\n"
      <> build_dspy_examples history
      <> "\n\n"
      <> (if is_set current_prompt
          then "Current system prompt:\n" <> current_prompt <> "\n\n"
          else "Current system prompt: (unknown — not configured in spec.evolution.promptConfigMap)"
            <> "\n\n")
      <> "Based on the training examples above, write an improved system prompt that is likely to "
      <> "achieve higher quality scores. Output ONLY the new prompt text."

-- dspyVariantName, at a time in nanoseconds.
unfoldable pub dspy_variant_name : String → ℕ → String
dspy_variant_name agent_name now = agent_name <> "-dspy-" <> decimal (now / 10 ^ 9)

abbrev pub is_active : ExperimentPhase → Bool
is_active ExperimentPhase.pending = true
is_active ExperimentPhase.testing = true
is_active _ = false

abbrev pub wire_experiment : String → Option EvolutionSpec → Option EvolutionSpec
wire_experiment name none = none
wire_experiment name (some ev) = some (record ev { prompt_experiment = name })

module _ {F : Type 0} where
  abbrev pub dspy_job_of : Option (EvolutionStatus F) → String
  dspy_job_of none = ""
  dspy_job_of (some ev) = ev.dspy_job_name

  -- An error of the Get lets the optimization go on.
  abbrev pub variant_is_active : Result (PromptVariant F) → Bool
  variant_is_active (ok v) = is_active v.status.phase
  variant_is_active (err e) = false

abbrev pub prompt_or_empty : Result String → String
prompt_or_empty (ok prompt) = prompt
prompt_or_empty (err e) = ""

abbrev pub dspy_proposal : String → ℕ → Result (Unit {0}) → String
dspy_proposal name samples patched =
    "dspy-optimizer: created PromptVariant "
    <> quoted name
    <> " from "
    <> decimal samples
    <> " samples"
    <> elim patched [
      | ok _ ↦ ""
      | err e ↦ " (auto-wire failed — set spec.evolution.promptExperiment manually)"
    ]

abbrev pub dspy_labels : String → Dict String
dspy_labels agent_name =
    ("app.kubernetes.io/managed-by", "agentroll")
    ∷ ("agentroll.dev/optimization-type", "dspy")
    ∷ ("agentroll.dev/agent", agent_name)
    ∷ []

abbrev pub dspy_variant_spec : {F : Type 0} → AgentDeployment F → String → ℕ → PromptVariantSpec
dspy_variant_spec a optimized samples = record {
  agent_deployment_ref = a.name;
  system_prompt = optimized;
  parent_version = or_default a.spec.agent_meta.prompt_version "default";
  hypothesis =
      "DSPy-style optimization from "
      <> decimal samples
      <> " eval history samples — addresses quality patterns in training data";
}

module _ {F : Type 0} (env : Env F) where
  -- What the Get of the ConfigMap gives readCurrentSystemPrompt.
  unfoldable pub prompt_in : Result ConfigMap → Exec F String
  prompt_in (ok cm) = pure (text_or_empty (lookup "system_prompt" cm.entries))
  prompt_in (err e) = if is_not_found e then pure "" else raise (wrap "readCurrentSystemPrompt" e)

  -- readCurrentSystemPrompt.
  unfoldable pub read_current_system_prompt : String → Exec F String
  read_current_system_prompt config_map =
      if is_set config_map
      then (do found ← try (ask Kind.config_map config_map env.get_config_map); prompt_in found)
      else pure ""

  -- createDspyPromptVariant.
  unfoldable pub create_dspy_prompt_variant : String → ℕ → Exec F String
  create_dspy_prompt_variant optimized samples = do
    a ← gets (λ w. w.agent)
    let name = dspy_variant_name a.name env.now
    wrapping ("createDspyPromptVariant: create PromptVariant " <> quoted name) (
        perform env
          (create_variant name (dspy_labels a.name) (dspy_variant_spec a optimized samples)))
    pure name

  -- `pv` is read only when a job is named.
  unfoldable pub previous_is_active : String → Exec F Bool
  previous_is_active name =
      if is_set name
      then (do found ← try (ask Kind.variant name env.get_variant); pure (variant_is_active found))
      else pure false

  -- The client decodes the answer of the API server into the agent in memory.
  unfoldable pub after_patch : Result (Unit {0}) → Exec F (Unit {0})
  after_patch (ok _) = do log ← gets (λ w. w.log); modify (env.patched log)
  after_patch (err e) = pure tt

  -- The created variant becomes the experiment of the agent, in memory and by a Patch.
  unfoldable pub wire_dspy_variant : ⦃fl : Float64 F⦄ → String → ℕ → Exec F String
  wire_dspy_variant name samples = do
    modify (with_evolution λ st. record st { dspy_job_name = name })
    modify
        λ b. record b { spec = record b.spec { evolution = wire_experiment name b.spec.evolution } }
    patched ← try (perform env (patch_prompt_experiment name))
    after_patch patched
    pure (dspy_proposal name samples patched)

  -- The part after the guards.
  unfoldable pub optimize_dspy :
      ⦃fl : Float64 F⦄ → EvolutionSpec → EvolutionOptimizerSpec → Exec F String
  optimize_dspy ev optimizer = do
    a ← gets (λ w. w.agent)
    read_prompt ← try (read_current_system_prompt ev.prompt_config_map)
    let current = prompt_or_empty read_prompt
    let history = a.status.eval_history
    key ←
        wrapping "reconcileDspyOptimizer: reading API key"
          (read_secret_key env a.namespace optimizer.secret_ref "API_KEY")
    optimized ← wrapping "reconcileDspyOptimizer: LLM call" (
        call_llm env optimizer.provider (record {
          model = optimizer.model;
          key = key;
          system = dspy_system_prompt;
          user = dspy_user_message current history;
        }))
    if is_set optimized
        then (do
          name ←
              wrapping "reconcileDspyOptimizer: creating PromptVariant"
                (create_dspy_prompt_variant optimized (length history))
          wire_dspy_variant name (length history))
        else pure ""

  -- reconcileDspyOptimizer.
  unfoldable pub reconcile_dspy_optimizer :
      ⦃fl : Float64 F⦄ → EvolutionSpec → EvolutionOptimizerSpec → Exec F String
  reconcile_dspy_optimizer ev optimizer = do
    a ← gets (λ w. w.agent)
    if is_set ev.prompt_experiment then pure "" else (do
      active ← previous_is_active (dspy_job_of a.status.evolution)
      if active || ltb (length a.status.eval_history) min_dspy_samples
          then pure ""
          else optimize_dspy ev optimizer)
