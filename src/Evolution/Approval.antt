-- ===== src/Evolution/Approval.antt =====
-- The three strategies of the evolution loop send what is permitted.
use std.Path.{subst}
use agentroll.Prelude.{
  ℕ, ◌≡◌, refl, sym, Bool, true, false, ◌&&◌, String, Option, none, some, is_set, if◌then◌else◌,
}
use agentroll.Float.{Float64}
use agentroll.Api.{
  EvolutionSpec, EvolutionStatus, EvolutionOptimizerSpec, GitHubSpec, LangfuseSpec,
  AgentDeploymentPhase,
}
use agentroll.Kube.{Env, Call, Result, ok, err, ConfigMap}
use agentroll.Kube.Exec.{Exec, World, pure, ◌>>=◌}
use agentroll.Kube.Exec.Sends.{Sends, Sent, Sends-if, Sends-map, Sends-pure, sends_rules}
use agentroll.Memory.Backend.{is_failing}
use agentroll.Evolution.Tuner.{fallback_values, propose_tuned, run_threshold_tuner}
use agentroll.Evolution.GitHub.{github_of}
use agentroll.Evolution.Failure.{build_failure_context}
use agentroll.Evolution.Optimizer.{
  store_prompt, write_prompt_to_config_map, enriched, deliver, run_prompt_optimizer,
}
use agentroll.Evolution.Upgrader.{detect_quality_plateau, deliver_upgrade, run_model_upgrader}
use agentroll.Evolution.Dspy.{
  prompt_in, read_current_system_prompt, create_dspy_prompt_variant, previous_is_active,
  optimize_dspy, wire_dspy_variant, after_patch, reconcile_dspy_optimizer,
}
use agentroll.Evolution.Loop.{
  runs_strategy, should_fire, attempt, optimize_prompt, upgrade_model, run_strategies, evolve,
  reconcile_evolution,
}
use agentroll.Evolution.Triggers.{Fires, both, failing_lem, runs_lem, triggered}
use agentroll.Evolution.Permitted.{
  Permitted, Prompts, IsDspy, scores-Q, traces-Q, list_runs-Q, read_secret_key-Q, call_llm-Q,
  open_pr-Q,
}

module _ {F : Type 0} (env : Env F) (ev : EvolutionSpec) (phase : AgentDeploymentPhase) where
  abbrev Q : Call F → Type 0
  Q = Permitted ev phase

  fallback-Q : (lf : Option LangfuseSpec) → Sends Q (fallback_values env lf)
  unfolding fallback_values
  fallback-Q none = search sends_rules
  fallback-Q (some lf) = search (sends_rules, scores-Q) depth 12

  tuner-Q : ⦃fl : Float64 F⦄ → Sends Q (run_threshold_tuner env)
  unfolding run_threshold_tuner propose_tuned
  tuner-Q = search (sends_rules, list_runs-Q, fallback-Q) depth 16

  failure-Q : Sends Q (build_failure_context env)
  unfolding build_failure_context
  failure-Q = search (sends_rules, list_runs-Q) depth 8

  enriched-Q : (context : String) (lf : Option LangfuseSpec) → Sends Q (enriched env context lf)
  unfolding enriched
  enriched-Q context none = search sends_rules
  enriched-Q context (some lf) = search (sends_rules, traces-Q) depth 10

  store_prompt-Q :
      (prompt : String) (r : Result ConfigMap)
      → Prompts ev phase
      → github_of ev.human_approval ≡ none
      → Sends Q (store_prompt env ev.prompt_config_map prompt r)
  unfolding store_prompt
  store_prompt-Q prompt (ok cm) f g = search sends_rules depth 8
  store_prompt-Q prompt (err e) f g = search sends_rules depth 8

  deliver-Q :
      (gh : Option GitHubSpec) (suggestion : String)
      → Prompts ev phase
      → github_of ev.human_approval ≡ gh
      → Sends Q (deliver env ev gh suggestion)
  unfolding deliver write_prompt_to_config_map
  deliver-Q (some gh) suggestion f g = search (sends_rules, open_pr-Q) depth 10
  deliver-Q none suggestion f g =
      search (sends_rules, λ (r : Result ConfigMap). store_prompt-Q suggestion r f g) depth 12

  prompt-Q :
      (optimizer : EvolutionOptimizerSpec)
      → Prompts ev phase
      → Sends Q (run_prompt_optimizer env ev optimizer)
  unfolding run_prompt_optimizer
  prompt-Q optimizer f =
      search
        (
          sends_rules,
          failure-Q,
          enriched-Q,
          read_secret_key-Q,
          call_llm-Q,
          λ (s : String). deliver-Q (github_of ev.human_approval) s f refl,
        )
        depth 16

  upgrade_delivery-Q :
      (gh : Option GitHubSpec) (n : ℕ) (suggestion : String)
      → Sends Q (deliver_upgrade env gh n suggestion)
  unfolding deliver_upgrade
  upgrade_delivery-Q (some gh) n suggestion = search (sends_rules, open_pr-Q) depth 10
  upgrade_delivery-Q none n suggestion = search sends_rules

  upgrader-Q :
      ⦃fl : Float64 F⦄ (optimizer : EvolutionOptimizerSpec)
      → Sends Q (run_model_upgrader env ev optimizer)
  unfolding run_model_upgrader detect_quality_plateau
  upgrader-Q optimizer =
      search (sends_rules, list_runs-Q, read_secret_key-Q, call_llm-Q, upgrade_delivery-Q) depth 18

  variant-Q :
      (optimized : String) (samples : ℕ)
      → Prompts ev phase
      → IsDspy ev
      → is_set ev.prompt_experiment ≡ false
      → Sends Q (create_dspy_prompt_variant env optimized samples)
  unfolding create_dspy_prompt_variant
  variant-Q optimized samples f d u = search sends_rules depth 10

  prompt_in-Q : (r : Result ConfigMap) → Sends Q (prompt_in env r)
  unfolding prompt_in
  prompt_in-Q (ok cm) = search sends_rules
  prompt_in-Q (err e) = search sends_rules

  current-Q : (config_map : String) → Sends Q (read_current_system_prompt env config_map)
  unfolding read_current_system_prompt
  current-Q config_map = search (sends_rules, prompt_in-Q) depth 10

  previous-Q : (name : String) → Sends Q (previous_is_active env name)
  unfolding previous_is_active
  previous-Q name = search sends_rules depth 10

  patch-Q : (answer : Result (Unit {0})) → Sends Q (after_patch env answer)
  unfolding after_patch
  patch-Q (ok _) = search sends_rules
  patch-Q (err e) = search sends_rules

  dspy-Q :
      ⦃fl : Float64 F⦄ (optimizer : EvolutionOptimizerSpec)
      → Prompts ev phase
      → IsDspy ev
      → Sends Q (reconcile_dspy_optimizer env ev optimizer)
  unfolding reconcile_dspy_optimizer optimize_dspy wire_dspy_variant
  dspy-Q optimizer f d =
      search (sends_rules, current-Q, previous-Q, read_secret_key-Q, call_llm-Q, variant-Q, patch-Q)
        depth 20

  optimize-Q :
      ⦃fl : Float64 F⦄ (o : Option EvolutionOptimizerSpec)
      → ev.optimizer ≡ o
      → Prompts ev phase
      → Sends Q (optimize_prompt env ev o)
  unfolding optimize_prompt
  optimize-Q none e f = search sends_rules
  optimize-Q (some optimizer) e f =
      Sends-if _ _ _ (λ d. dspy-Q optimizer f (optimizer, e, d)) (λ _. prompt-Q optimizer f)

  upgrade-Q :
      ⦃fl : Float64 F⦄ (o : Option EvolutionOptimizerSpec) → Sends Q (upgrade_model env ev o)
  unfolding upgrade_model
  upgrade-Q none = search sends_rules
  upgrade-Q (some optimizer) = upgrader-Q optimizer

  attempt-Q :
      (runs : Bool) (strategy : Exec F String)
      → (runs ≡ true → Sends Q strategy)
      → Sends Q (attempt env runs strategy)
  unfolding attempt
  attempt-Q runs strategy h = search (sends_rules, h) depth 8

  prompting-Q :
      ⦃fl : Float64 F⦄
      → (runs_strategy ev "prompt-optimizer" && is_failing phase) ≡ true
      → Sends Q (optimize_prompt env ev ev.optimizer)
  prompting-Q h =
      let (runs, failing) = both (runs_strategy ev "prompt-optimizer") (is_failing phase) h in
      optimize-Q ev.optimizer refl (failing_lem phase failing, runs_lem ev "prompt-optimizer" runs)

  strategies-Q : ⦃fl : Float64 F⦄ → Sends Q (run_strategies env ev phase)
  unfolding run_strategies
  strategies-Q = search (sends_rules, attempt-Q, tuner-Q, upgrade-Q, prompting-Q) depth 14

  gated-Q :
      ⦃fl : Float64 F⦄ (now : ℕ) (st : Option (EvolutionStatus F))
      → Sends
          (λ call. Fires ev now phase st × Permitted ev phase call)
          (if ev.enabled && should_fire now ev phase st
            then run_strategies env ev phase
            else pure tt)
  gated-Q now st =
      Sends-if _ _ _
        (λ h.
          let (on, fires) = both ev.enabled (should_fire now ev phase st) h in
          Sends-map (run_strategies env ev phase) strategies-Q
            (λ c q. (triggered ev now phase st on fires, q)))
        (λ _. Sends-pure tt)

-- Whatever Langfuse, the model and GitHub answer, the evolution loop sends only what its spec permits
-- at the phase of the agent: nothing at all unless it is enabled and its trigger is there. It never writes
-- a Rollout, a template or a status; it writes a prompt to a ConfigMap only while the canary is failing,
-- the prompt optimizer is among the strategies and no repository is named for human approval; and it
-- creates a PromptVariant and turns on its experiment only in the mode "dspy", while the canary is
-- failing, the prompt optimizer is among the strategies and no experiment is on.
pub reconcile_evolution-Permitted :
    {F : Type 0} ⦃fl : Float64 F⦄ (env : Env F) (w : World F) (ev : EvolutionSpec)
    → w.agent.spec.evolution ≡ some ev
    → Sent
        (λ call.
          Fires ev env.now w.agent.status.phase w.agent.status.evolution
          × Permitted ev w.agent.status.phase call)
        w
        (reconcile_evolution env w).1
unfolding reconcile_evolution evolve ◌>>=◌
reconcile_evolution-Permitted {F = F} env w ev e =
    let phase = w.agent.status.phase in
    let st = w.agent.status.evolution in
    subst
      (λ o. Sent (λ call. Fires ev env.now phase st × Permitted ev phase call) w (evolve env o w).1)
      (sym e) ((gated-Q env ev phase env.now st).at w)
