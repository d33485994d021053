-- ===== src/Experiment/Single.antt =====
-- The writes of one pass over a tool experiment, and the changes of the agent that go with them.
use std.Path.{subst}
use agentroll.Prelude.{
  ◌≡◌, refl, sym, ◌∙◌, ◌⊎◌, inl, inr, String, Option, none, some, List, [], ◌∷◌, ◌++◌, All, ℕ,
  is_set, true,
}
use agentroll.Float.{Float64}
use agentroll.Api.{AgentDeployment, ToolExperiment, ExperimentStatus, ExperimentPhase}
use agentroll.Kube.{Env, Call, read, Kind, update_experiment_status, Result, ok}
use agentroll.Kube.Exec.{Exec, World, wrapping, perform, ◌>>=◌, ◌>>◌}
use agentroll.Kube.Exec.Runs.{Result-cases}
use agentroll.Kube.Exec.Sends.{Sends, sends_rules}
use agentroll.Kube.Exec.Keeps.{Keeps, keeps_rules}
use agentroll.Kube.Exec.Atomic.{unchanged}
use agentroll.Experiment.Decide.{Decision, waiting, promote, reject, assess}
use agentroll.Experiment.Evidence.{
  Edge, start_unset, start_pending, keep_testing, win, lose, assess-keeps,
}
use agentroll.Experiment.Progress.{IsFinal}
use agentroll.Experiment.Tool.{
  start_tool_experiment, promote_tool_experiment, reject_tool_experiment, conclude_tool,
  evaluate_tool_from, evaluate_tool_experiment, advance_tool, tool_fetched,
  reconcile_tool_experiment, tool_experiment_of, tool_experiment_min_samples,
}

-- No call at all.
abbrev Never : {F : Type 0} → Call F → Type 0
Never call = ⊥

-- From this log and this agent, a pass over `x` has made no write and no change; or it has moved the
-- status of `x` along an edge, and changed the agent only if that was accepted and is the end.
abbrev pub Single :
    {F A : Type 0}
    → Env F
    → ToolExperiment F
    → List (Call F)
    → AgentDeployment F
    → Result A × World F
    → Type 0
Single {F} env x log a (r, w) =
    ((w.log ≡ log) × (w.agent ≡ a))
    ⊎ ((st : ExperimentStatus F) × Edge x.status.phase st.phase
        × (w.log ≡ update_experiment_status x.name st ∷ log)
        × ((w.agent ≡ a)
            ⊎ ((env.write log (update_experiment_status x.name st) ≡ ok tt) × IsFinal st.phase)))

no_calls :
    {F : Type 0} (calls : List (Call F)) (log log' : List (Call F))
    → All (Never {F = F}) calls
    → log' ≡ calls ++ log
    → log' ≡ log
no_calls [] log log' never e = e
no_calls (call ∷ calls) log log' (never, _) e = absurd never

silent : {F A : Type 0} (m : Exec F A) (w : World F) → Sends (Never {F = F}) m → (m w).1.log ≡ w.log
silent m w s = let (calls, e, never) = s.at w in no_calls calls w.log (m w).1.log never e

module _ {F : Type 0} (env : Env F) (x : ToolExperiment F) where
  -- The status update of a conclusion or a start, with what comes after it.
  write_then-Single :
      (text : String) (st : ExperimentStatus F) (m : Exec F (Unit {0})) (w : World F)
      → Edge x.status.phase st.phase
      → Sends (Never {F = F}) m
      → Keeps unchanged m ⊎ IsFinal st.phase
      → Single env x w.log w.agent
          ((wrapping text (perform env (update_experiment_status x.name st)) >> m) w)
  unfolding ◌>>=◌
  write_then-Single text st m w edge s kept =
      elim (Result-cases (env.write w.log (update_experiment_status x.name st))) [
        | inl e ↦ rw e (inr (st, edge, silent m _ s, after kept e))
        | inr (d, e) ↦ rw e (inr (st, edge, refl, inl refl))
      ]
    where
      after :
          Keeps unchanged m ⊎ IsFinal st.phase
          → env.write w.log (update_experiment_status x.name st) ≡ ok tt
          → ((m (record w { log = update_experiment_status x.name st ∷ w.log })).1.agent ≡ w.agent)
            ⊎ ((env.write w.log (update_experiment_status x.name st) ≡ ok tt) × IsFinal st.phase)
      after (inl k) e = inl (k.at _)
      after (inr final) e = inr (e, final)

module _ {F : Type 0} ⦃fl : Float64 F⦄ (env : Env F) (x : ToolExperiment F) where
  start-Single :
      (w : World F)
      → Edge x.status.phase ExperimentPhase.testing
      → Single env x w.log w.agent (start_tool_experiment env x w)
  unfolding start_tool_experiment ◌>>=◌
  start-Single w edge =
      write_then-Single env x _ _ _ w edge (search sends_rules) (inl (search keeps_rules))

  conclude-Single :
      (p : ExperimentStatus F × Decision) (w : World F)
      → x.status.phase ≡ ExperimentPhase.testing
      → p.0.phase ≡ x.status.phase
      → Single env x w.log w.agent (conclude_tool env x p w)
  unfolding conclude_tool promote_tool_experiment reject_tool_experiment ◌>>=◌
  conclude-Single (st, waiting) w testing kept = inr (
    st,
    subst (λ p. Edge p st.phase) (sym testing)
        (subst (λ q. Edge ExperimentPhase.testing q) (sym (kept ∙ testing)) keep_testing),
    refl,
    inl refl,
  )
  conclude-Single (st, promote) w testing kept =
      write_then-Single env x _ _ _ w
        (subst (λ p. Edge p ExperimentPhase.promoted) (sym testing) win) (search sends_rules)
        (inr (inl refl))
  conclude-Single (st, reject) w testing kept =
      write_then-Single env x _ _ _ w
        (subst (λ p. Edge p ExperimentPhase.rejected) (sym testing) lose) (search sends_rules)
        (inr (inr refl))

  evaluate-Single :
      (started : Option ℕ) (w : World F)
      → x.status.phase ≡ ExperimentPhase.testing
      → Single env x w.log w.agent (evaluate_tool_from env x started w)
  unfolding evaluate_tool_from ◌>>=◌
  evaluate-Single none w testing = inl (refl, refl)
  evaluate-Single (some at) w testing =
      conclude-Single
        (assess w.agent.status.eval_history at (tool_experiment_min_samples w.agent) x.status) w
        testing
        (assess-keeps w.agent.status.eval_history at (tool_experiment_min_samples w.agent)
          x.status).0

  advance-Single :
      (phase : ExperimentPhase) (w : World F)
      → x.status.phase ≡ phase
      → Single env x w.log w.agent (advance_tool env phase x w)
  unfolding advance_tool evaluate_tool_experiment ◌>>=◌
  advance-Single ExperimentPhase.unset w e =
      start-Single w (subst (λ p. Edge p ExperimentPhase.testing) (sym e) start_unset)
  advance-Single ExperimentPhase.pending w e =
      start-Single w (subst (λ p. Edge p ExperimentPhase.testing) (sym e) start_pending)
  advance-Single ExperimentPhase.testing w e = evaluate-Single x.status.experiment_started_at w e
  advance-Single ExperimentPhase.promoted w e = inl (refl, refl)
  advance-Single ExperimentPhase.rejected w e = inl (refl, refl)

  -- The pass over `x`, when the API server answers with it.
  pub reconcile_tool_experiment-Single :
      (w : World F)
      → is_set (tool_experiment_of w.agent.spec.evolution) ≡ true
      → env.get_experiment w.log (tool_experiment_of w.agent.spec.evolution) ≡ ok x
      → Single env x
          (read Kind.experiment (tool_experiment_of w.agent.spec.evolution) ∷ w.log)
          w.agent
          (reconcile_tool_experiment env w)
  unfolding reconcile_tool_experiment tool_fetched ◌>>=◌
  reconcile_tool_experiment-Single w set got = rw (set, got) (advance-Single x.status.phase _ refl)
