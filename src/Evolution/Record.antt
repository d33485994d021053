-- ===== src/Evolution/Record.antt =====
-- What an evolution pass leaves in status.evolution.
use agentroll.Prelude.{
  ℕ, ◌≤◌, ◌≡◌, refl, ◌∙◌, Bool, String, Option, none, some, List, [], ◌∷◌, ◌++◌, map, length,
  keep_last,
}
use agentroll.Float.{Float64}
use agentroll.Api.{
  AgentDeployment, AgentDeploymentPhase, EvolutionStatus, EvolutionHistoryEntry, EvolutionSpec,
}
use agentroll.Kube.{Env, ok}
use agentroll.Kube.Exec.{Exec, World}
use agentroll.Kube.Exec.Atomic.{Total, total_rules}
use agentroll.History.{append_evolution_history, max_evolution_history}
use agentroll.History.Bounds.{append_all, append_all-eq-keep_last}
use agentroll.Scorecard.{evolution_or_new}
use agentroll.Evolution.Loop.{
  strategy_name, record_proposals, with_proposals, attempt, run_strategies, evolve,
  reconcile_evolution,
}

-- The entry of a proposal.
abbrev pub entry_of : ℕ → AgentDeploymentPhase → String → EvolutionHistoryEntry
entry_of now phase proposal = record {
  at = now;
  strategy = strategy_name proposal;
  description = proposal;
  phase = phase;
}

module _ {F : Type 0} where
  recorded-append_all :
      (now : ℕ) (phase : AgentDeploymentPhase) (st : EvolutionStatus F) (proposals : List String)
      → (record_proposals now phase st proposals).history
        ≡ append_all max_evolution_history st.history (map (entry_of now phase) proposals)
  unfolding record_proposals append_evolution_history
  recorded-append_all now phase st [] = refl
  recorded-append_all now phase st (p ∷ proposals) =
      recorded-append_all now phase (append_evolution_history st (entry_of now phase p)) proposals

  -- After the proposals of a pass, the history of status.evolution is the 20 newest of what it held and
  -- one entry for each proposal, in their order, if it was within its bound before.
  pub with_proposals-newest :
      ⦃fl : Float64 F⦄
      → (now : ℕ) (phase : AgentDeploymentPhase) (proposals : List String) (a : AgentDeployment F)
      → length (evolution_or_new a.status.evolution).history ≤ max_evolution_history
      → (evolution_or_new (with_proposals now phase proposals a).status.evolution).history
        ≡ keep_last max_evolution_history
            ((evolution_or_new a.status.evolution).history ++ map (entry_of now phase) proposals)
  unfolding with_proposals
  with_proposals-newest now phase proposals a h =
      recorded-append_all now phase _ proposals
      ∙ append_all-eq-keep_last max_evolution_history (evolution_or_new a.status.evolution).history
          (map (entry_of now phase) proposals) h

module _ {F : Type 0} ⦃fl : Float64 F⦄ (env : Env F) where
  attempt-Total : (runs : Bool) (strategy : Exec F String) → Total (attempt env runs strategy)
  unfolding attempt
  attempt-Total runs strategy = search total_rules depth 8

  evolve-Total : (o : Option EvolutionSpec) → Total (evolve env o)
  unfolding evolve run_strategies
  evolve-Total none = search total_rules
  evolve-Total (some ev) = search (total_rules, attempt-Total) depth 16

  -- The evolution loop cannot fail, whatever Langfuse, the model, GitHub and the API server answer: so
  -- the event EvolutionError of a pass is never sent.
  pub reconcile_evolution-Total : (w : World F) → (reconcile_evolution env w).0 ≡ ok tt
  unfolding reconcile_evolution
  reconcile_evolution-Total w =
      let t : Total (reconcile_evolution env) = search (total_rules, evolve-Total) depth 8 in
      (t.at w).1
