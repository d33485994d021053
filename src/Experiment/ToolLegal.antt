-- ===== src/Experiment/ToolLegal.antt =====
-- The life of a tool experiment, seen in the status updates that the controller sends.
use agentroll.Prelude.{
  ℕ, ◌≡◌, refl, String, Option, none, some, [], ◌∷◌, is_set, Bool-cases, inl, inr,
}
use agentroll.Float.{Float64}
use agentroll.Api.{AgentDeployment, ToolExperiment, ExperimentStatus, ExperimentPhase}
use agentroll.Kube.{Env, Call, update_experiment_status, read, ok, Kind}
use agentroll.Kube.Exec.{World, pure, ◌>>=◌}
use agentroll.Kube.Exec.Sends.{Sends, Sent, Sent-trans, sends_rules}
use agentroll.Experiment.Decide.{Decision, waiting, promote, reject, assess}
use agentroll.Experiment.Evidence.{
  Edge, start_unset, start_pending, keep_testing, win, lose, Won, assess_promote, assess-keeps,
}
use agentroll.Experiment.Tool.{
  start_tool_experiment, promote_tool_experiment, reject_tool_experiment, evaluate_tool_experiment,
  reconcile_tool_experiment, tool_experiment_min_samples, tool_experiment_of, conclude_tool,
  advance_tool, tool_fetched, evaluate_tool_from,
}

module _ {F : Type 0} ⦃fl : Float64 F⦄ where
  -- What a pass may send for an experiment `x` of the agent `a`: it reads, and it moves the experiment
  -- along an edge, to Promoted only on evidence.
  abbrev pub LegalTool : AgentDeployment F → ToolExperiment F → Call F → Type 0
  LegalTool a x (read kind name) = Unit
  LegalTool a x (update_experiment_status name st) =
      (name ≡ x.name)
      × Edge x.status.phase st.phase
      × (st.phase ≡ ExperimentPhase.promoted
          → Won a.status.eval_history (tool_experiment_min_samples a) st)
  LegalTool a x _ = ⊥

  module _ (env : Env F) (a : AgentDeployment F) (x : ToolExperiment F) where
    sent_testing :
        Edge x.status.phase ExperimentPhase.testing
        → (started : Option ℕ) (message : String)
        → LegalTool a x (
            update_experiment_status x.name (record x.status {
              phase = ExperimentPhase.testing;
              experiment_started_at = started;
              message = message;
            }))
    sent_testing edge started message = (refl, edge, λ e. cc)

    start-Sends :
        Edge x.status.phase ExperimentPhase.testing
        → Sends (LegalTool a x) (start_tool_experiment env x)
    unfolding start_tool_experiment
    start-Sends edge = search (sends_rules, sent_testing edge) depth 12

    promote-Sends :
        (st : ExperimentStatus F)
        → x.status.phase ≡ ExperimentPhase.testing
        → Won a.status.eval_history (tool_experiment_min_samples a) st
        → Sends (LegalTool a x) (promote_tool_experiment env x st)
    unfolding promote_tool_experiment
    promote-Sends st testing won = search (sends_rules, sent_promoted) depth 12
      where
        sent_promoted :
            (time : Option ℕ) (message : String)
            → LegalTool a x (
                update_experiment_status x.name (record st {
                  phase = ExperimentPhase.promoted;
                  promoted_at = time;
                  message = message;
                }))
        sent_promoted time message = (refl, rw testing win, λ _. won)

    reject-Sends :
        (st : ExperimentStatus F)
        → x.status.phase ≡ ExperimentPhase.testing
        → Sends (LegalTool a x) (reject_tool_experiment env x st)
    unfolding reject_tool_experiment
    reject-Sends st testing = search (sends_rules, sent_rejected) depth 12
      where
        sent_rejected :
            (time : Option ℕ) (message : String)
            → LegalTool a x (
                update_experiment_status x.name (record st {
                  phase = ExperimentPhase.rejected;
                  rejected_at = time;
                  message = message;
                }))
        sent_rejected time message = (refl, rw testing lose, λ e. cc)

    conclude-Sends :
        (p : ExperimentStatus F × Decision)
        → x.status.phase ≡ ExperimentPhase.testing
        → p.0.phase ≡ x.status.phase
        → (p.1 ≡ promote → Won a.status.eval_history (tool_experiment_min_samples a) p.0)
        → Sends (LegalTool a x) (conclude_tool env x p)
    unfolding conclude_tool
    conclude-Sends (st, waiting) testing same won = search (sends_rules, kept) depth 12
      where
        kept : LegalTool a x (update_experiment_status x.name st)
        kept = (refl, rw (same, testing) keep_testing, λ e. cc)
    conclude-Sends (st, promote) testing same won = promote-Sends st testing (won refl)
    conclude-Sends (st, reject) testing same won = reject-Sends st testing

  module _ (env : Env F) (x : ToolExperiment F) (w : World F) where
    evaluate-Sent :
        (started : Option ℕ)
        → x.status.phase ≡ ExperimentPhase.testing
        → x.status.experiment_started_at ≡ started
        → Sent (LegalTool w.agent x) w (evaluate_tool_from env x started w).1
    unfolding evaluate_tool_from ◌>>=◌
    evaluate-Sent none testing started = ([], refl, tt)
    evaluate-Sent (some started_at) testing started =
        let history = w.agent.status.eval_history in
        let min_samples = tool_experiment_min_samples w.agent in
        (conclude-Sends env w.agent x (assess history started_at min_samples x.status) testing
            (assess-keeps history started_at min_samples x.status).0
            (assess_promote history started_at min_samples x.status started)).at
          w

    advance-Sent :
        (phase : ExperimentPhase)
        → x.status.phase ≡ phase
        → Sent (LegalTool w.agent x) w (advance_tool env phase x w).1
    unfolding advance_tool evaluate_tool_experiment pure
    advance-Sent ExperimentPhase.unset p = (start-Sends env w.agent x (rw p start_unset)).at w
    advance-Sent ExperimentPhase.pending p = (start-Sends env w.agent x (rw p start_pending)).at w
    advance-Sent ExperimentPhase.testing p = evaluate-Sent x.status.experiment_started_at p refl
    advance-Sent ExperimentPhase.promoted p = ([], refl, tt)
    advance-Sent ExperimentPhase.rejected p = ([], refl, tt)

  -- Whatever the environment answers, a pass over a tool experiment `x` that it fetches sends nothing
  -- but reads and status updates of `x` along an edge of its life. An update to Promoted carries a
  -- significant t-test, on enough scores, in the experiment's favour.
  pub reconcile_tool_experiment-LegalTool :
      (env : Env F) (w : World F) (x : ToolExperiment F)
      → env.get_experiment w.log (tool_experiment_of w.agent.spec.evolution) ≡ ok x
      → Sent (LegalTool w.agent x) w (reconcile_tool_experiment env w).1
  unfolding reconcile_tool_experiment tool_fetched ◌>>=◌
  reconcile_tool_experiment-LegalTool env w x fetched =
      let name = tool_experiment_of w.agent.spec.evolution in
      elim (Bool-cases (is_set name)) [
        | inl named ↦
            (let w' = record w { log = read Kind.experiment name ∷ w.log } in
              rw (named, fetched)
                (Sent-trans w w' (advance_tool env x.status.phase x w').1
                  (read Kind.experiment name ∷ [], refl, (tt, tt))
                  (advance-Sent env x w' x.status.phase refl)))
        | inr unnamed ↦ rw unnamed ([], refl, tt)
      ]
