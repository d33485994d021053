-- ===== src/Experiment/Progress.antt =====
-- An experiment with enough evaluations ends.
use std.Path.{subst}
use agentroll.Prelude.{
  ◌≡◌, ◌≢◌, refl, sym, ℕ, ◌⊎◌, inl, inr, Bool, true, false, String, some, List, ◌∷◌, length, ltb,
  is_set, ◌&&◌, if-elim,
}
use agentroll.Float.{Float64}
use agentroll.Stats.{collect_variant_scores, collect_control_scores}
use agentroll.Api.{
  AgentDeployment, EvalHistoryEntry, ToolExperiment, ExperimentStatus, ExperimentPhase,
}
use agentroll.Kube.{Env, Call, read, update_experiment_status, Result, ok, Kind}
use agentroll.Kube.Exec.{World, ◌>>=◌}
use agentroll.Experiment.Decide.{Decision, waiting, promote, reject, verdict, assess}
use agentroll.Experiment.Tool.{
  promote_tool_experiment, reject_tool_experiment, conclude_tool, evaluate_tool_from,
  evaluate_tool_experiment, advance_tool, tool_fetched, reconcile_tool_experiment,
  tool_experiment_of, tool_experiment_min_samples,
}

-- Promoted or Rejected: the phases that a pass leaves alone.
abbrev pub IsFinal : ExperimentPhase → Type 0
IsFinal phase = (phase ≡ ExperimentPhase.promoted) ⊎ (phase ≡ ExperimentPhase.rejected)

-- Enough evaluations on both sides of the start.
abbrev pub HasEvidence : {F : Type 0} ⦃fl : Float64 F⦄ → List (EvalHistoryEntry F) → ℕ → ℕ → Type 0
HasEvidence history at min_samples =
    (ltb (length (collect_variant_scores history at)) min_samples ≡ false)
    × (ltb (length (collect_control_scores history at)) 2 ≡ false)

-- The program ends without an error, and its one write after `log` ends the experiment with this
-- name.
abbrev pub Concludes : {F : Type 0} → String → List (Call F) → Result (Unit {0}) × World F → Type 0
Concludes {F} name log (r, w) =
    (r ≡ ok tt)
    × ((st : ExperimentStatus F) × IsFinal st.phase
        × (w.log ≡ update_experiment_status name st ∷ log))

module _ {F : Type 0} ⦃fl : Float64 F⦄ where
  verdict-decides : (test : F × Bool) → verdict test ≢ waiting
  unfolding verdict
  verdict-decides (p, better) =
      if-elim (λ (d : Decision). d ≢ waiting) (better && fl.lt p (fl.ratio 5 100)) promote reject
        (λ _ e. cc) (λ _ e. cc)

  assess-decides :
      (history : List (EvalHistoryEntry F)) (at min_samples : ℕ) (st : ExperimentStatus F)
      → HasEvidence history at min_samples
      → (assess history at min_samples st).1 ≢ waiting
  unfolding assess
  assess-decides history at min_samples st (v, c) = rw (v, c) (verdict-decides _)

module _ {F : Type 0} ⦃fl : Float64 F⦄ (env : Env F)
    (accepts : (log : List (Call F)) (call : Call F) → env.write log call ≡ ok tt) where
  conclude-Concludes :
      (x : ToolExperiment F) (p : ExperimentStatus F × Decision) (w : World F)
      → p.1 ≢ waiting
      → Concludes x.name w.log (conclude_tool env x p w)
  unfolding conclude_tool promote_tool_experiment reject_tool_experiment ◌>>=◌
  conclude-Concludes x (st, waiting) w h = absurd (h refl)
  conclude-Concludes x (st, promote) w h = rw accepts (refl, (_, inl refl, refl))
  conclude-Concludes x (st, reject) w h = rw accepts (refl, (_, inr refl, refl))

  evaluate-Concludes :
      (x : ToolExperiment F) (at : ℕ) (w : World F)
      → HasEvidence w.agent.status.eval_history at (tool_experiment_min_samples w.agent)
      → Concludes x.name w.log (evaluate_tool_from env x (some at) w)
  unfolding evaluate_tool_from ◌>>=◌
  evaluate-Concludes x at w h = conclude-Concludes x _ w (assess-decides _ at _ x.status h)

  fetched-Concludes :
      (a : AgentDeployment F) (name : String) (x : ToolExperiment F) (at : ℕ) (w : World F)
      → x.status.phase ≡ ExperimentPhase.testing
      → x.status.experiment_started_at ≡ some at
      → HasEvidence w.agent.status.eval_history at (tool_experiment_min_samples w.agent)
      → Concludes x.name w.log (tool_fetched env a name (ok x) w)
  unfolding tool_fetched advance_tool evaluate_tool_experiment
  fetched-Concludes a name x at w testing started h =
      subst (λ p. Concludes x.name w.log (advance_tool env p x w)) (sym testing)
        (subst (λ s. Concludes x.name w.log (evaluate_tool_from env x s w)) (sym started)
          (evaluate-Concludes x at w h))

  -- The pass on a tool experiment under test with enough evaluations on both sides of its start
  -- ends that experiment, when every write is accepted: it returns no error, and its one write
  -- sets the phase to Promoted or to Rejected.
  pub reconcile_tool_experiment-Concludes :
      (w : World F) (x : ToolExperiment F) (at : ℕ)
      → is_set (tool_experiment_of w.agent.spec.evolution) ≡ true
      → env.get_experiment w.log (tool_experiment_of w.agent.spec.evolution) ≡ ok x
      → x.status.phase ≡ ExperimentPhase.testing
      → x.status.experiment_started_at ≡ some at
      → HasEvidence w.agent.status.eval_history at (tool_experiment_min_samples w.agent)
      → Concludes x.name
          (read Kind.experiment (tool_experiment_of w.agent.spec.evolution) ∷ w.log)
          (reconcile_tool_experiment env w)
  unfolding reconcile_tool_experiment ◌>>=◌
  reconcile_tool_experiment-Concludes w x at set got testing started h =
      rw (set, got) (fetched-Concludes w.agent _ x at _ testing started h)
