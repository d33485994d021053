-- ===== src/Evolution/Loop.antt =====
-- reconcileEvolution and periodicTriggerDue of internal/controller/evolution.go.
use agentroll.Prelude.{
  ℕ, Bool, true, false, ◌&&◌, ◌||◌, String, Option, none, some, List, [], ◌∷◌, ◌++◌, ltb, is_set,
  is_empty, or_default, before_colon, ◌==◌, if◌then◌else◌,
}
use agentroll.Float.{Float64}
use agentroll.Api.{
  AgentDeployment, AgentDeploymentPhase, EvolutionSpec, EvolutionOptimizerSpec, EvolutionStatus,
}
use agentroll.Kube.{Env, Result, ok, err}
use agentroll.Kube.Exec.{Exec, pure, gets, try, modify, ◌>>=◌}
use agentroll.History.{append_evolution_history}
use agentroll.Scorecard.{with_evolution}
use agentroll.Int.{inc32}
use agentroll.Rollout.Version.{join}
use agentroll.Memory.Backend.{is_failing}
use agentroll.Evolution.Tuner.{run_threshold_tuner}
use agentroll.Evolution.Optimizer.{run_prompt_optimizer}
use agentroll.Evolution.Upgrader.{run_model_upgrader}
use agentroll.Evolution.Dspy.{reconcile_dspy_optimizer}

module _ {F : Type 0} where
  abbrev pub next_eval_of : Option (EvolutionStatus F) → Option ℕ
  next_eval_of none = none
  next_eval_of (some st) = st.next_eval_at

  -- periodicTriggerDue, where spec.evolution is there.
  unfoldable pub periodic_trigger_due : ℕ → EvolutionSpec → Option (EvolutionStatus F) → Bool
  periodic_trigger_due now ev st =
      if is_set ev.schedule
      then elim (next_eval_of st) [ none ↦ true | some at ↦ ltb at now ]
      else false

  -- `shouldFire`.
  unfoldable pub should_fire :
      ℕ → EvolutionSpec → AgentDeploymentPhase → Option (EvolutionStatus F) → Bool
  should_fire now ev phase st =
      let due = periodic_trigger_due now ev st in
      if ev.trigger == "on-canary-fail" || ev.trigger == ""
      then is_failing phase
      else if ev.trigger == "periodic"
      then due
      else if ev.trigger == "both"
      then is_failing phase || due
      else false

-- `strategy == name || strategy == "all"`.
abbrev pub runs_strategy : EvolutionSpec → String → Bool
runs_strategy ev name =
    let strategy = or_default ev.strategy "all" in strategy == name || strategy == "all"

-- An error is logged only; the empty text is no proposal.
abbrev pub proposed : Result String → List String
proposed (ok proposal) = if is_set proposal then proposal ∷ [] else []
proposed (err e) = []

-- `if idx := strings.Index(p, ":"); idx > 0 { strategyName = p[:idx] }`.
unfoldable pub strategy_name : String → String
strategy_name proposal = elim (before_colon proposal) [
  | none ↦ "unknown"
  | some name ↦ or_default name "unknown"
]

module _ {F : Type 0} where
  -- The loop over the proposals.
  unfoldable pub record_proposals :
      ℕ → AgentDeploymentPhase → EvolutionStatus F → List String → EvolutionStatus F
  record_proposals now phase st [] = st
  record_proposals now phase st (p ∷ proposals) =
      record_proposals now phase
        (append_evolution_history st
          (record { at = now; strategy = strategy_name p; description = p; phase = phase }))
        proposals

  -- The update of status.evolution.
  unfoldable pub with_proposals :
      ⦃fl : Float64 F⦄
      → ℕ
      → AgentDeploymentPhase
      → List String
      → AgentDeployment F
      → AgentDeployment F
  with_proposals now phase proposals = with_evolution λ st.
      record_proposals now phase
        (record st {
          last_proposal = join "; " proposals;
          last_proposal_at = some now;
          proposal_count = inc32 st.proposal_count;
        })
        proposals

module _ {F : Type 0} (env : Env F) where
  -- A strategy that may not run, and its proposal.
  unfoldable pub attempt : Bool → Exec F String → Exec F (List String)
  attempt runs strategy =
      if runs then (do outcome ← try strategy; pure (proposed outcome)) else pure []

  unfoldable pub optimize_prompt :
      ⦃fl : Float64 F⦄ → EvolutionSpec → Option EvolutionOptimizerSpec → Exec F String
  optimize_prompt ev none = pure ""
  optimize_prompt ev (some optimizer) =
      if optimizer.mode == "dspy"
      then reconcile_dspy_optimizer env ev optimizer
      else run_prompt_optimizer env ev optimizer

  unfoldable pub upgrade_model :
      ⦃fl : Float64 F⦄ → EvolutionSpec → Option EvolutionOptimizerSpec → Exec F String
  upgrade_model ev none = pure ""
  upgrade_model ev (some optimizer) = run_model_upgrader env ev optimizer

  -- The three strategies, once the loop fires.
  unfoldable pub run_strategies :
      ⦃fl : Float64 F⦄ → EvolutionSpec → AgentDeploymentPhase → Exec F (Unit {0})
  run_strategies ev phase = do
    tuned ← attempt (runs_strategy ev "threshold-tuner") (run_threshold_tuner env)
    prompts ←
        attempt (runs_strategy ev "prompt-optimizer" && is_failing phase)
          (optimize_prompt ev ev.optimizer)
    models ← attempt (runs_strategy ev "model-upgrader") (upgrade_model ev ev.optimizer)
    let proposals = tuned ++ prompts ++ models
    if is_empty proposals then pure tt else modify (with_proposals env.now phase proposals)

  unfoldable pub evolve : ⦃fl : Float64 F⦄ → Option EvolutionSpec → Exec F (Unit {0})
  evolve none = pure tt
  evolve (some ev) = do
    a ← gets (λ w. w.agent)
    if ev.enabled && should_fire env.now ev a.status.phase a.status.evolution
        then run_strategies ev a.status.phase
        else pure tt

  -- reconcileEvolution.
  unfoldable pub reconcile_evolution : ⦃fl : Float64 F⦄ → Exec F (Unit {0})
  reconcile_evolution = do a ← gets (λ w. w.agent); evolve a.spec.evolution
