-- ===== src/Experiment/Legal.antt =====
-- The life of a prompt experiment, seen in the status updates that the controller sends.
use agentroll.Prelude.{
  ℕ, ◌≡◌, refl, String, Option, none, some, [], ◌∷◌, lookup, insert, lookup-insert, Dict, is_set,
  Bool-cases, inl, inr,
}
use agentroll.Float.{Float64}
use agentroll.Api.{AgentDeployment, PromptVariant, ExperimentStatus, ExperimentPhase}
use agentroll.Kube.{
  Env, Call, update_variant_status, read, apply_config_map, create_config_map, update_config_map,
  Result, ok, err, Kind, ConfigMap,
}
use agentroll.Kube.Exec.{World, pure, ◌>>=◌}
use agentroll.Kube.Exec.Sends.{Sends, Sent, Sent-trans, sends_rules}
use agentroll.Experiment.Decide.{Decision, waiting, promote, reject, assess}
use agentroll.Experiment.Evidence.{
  Edge, start_unset, start_pending, keep_testing, win, lose, Won, assess_promote, assess-keeps,
}
use agentroll.Experiment.Prompt.{
  start_experiment, write_winning_prompt, promote_variant, reject_variant, evaluate_experiment,
  reconcile_prompt_experiment, prompt_experiment_min_samples, prompt_experiment_of, found_or_fresh,
  conclude, advance_prompt, prompt_fetched, evaluate_from,
}

module _ {F : Type 0} ⦃fl : Float64 F⦄ where
  -- What a pass may send for a variant `v` of the agent `a`: it reads, it writes ConfigMaps that hold
  -- the variant's prompt, and it moves the variant along an edge, to Promoted only on evidence.
  abbrev pub Legal : AgentDeployment F → PromptVariant F → Call F → Type 0
  Legal a v (read kind name) = Unit
  Legal a v (apply_config_map cm) = lookup "system_prompt" cm.entries ≡ some v.spec.system_prompt
  Legal a v (create_config_map cm) = lookup "system_prompt" cm.entries ≡ some v.spec.system_prompt
  Legal a v (update_config_map cm) = lookup "system_prompt" cm.entries ≡ some v.spec.system_prompt
  Legal a v (update_variant_status name st) =
      (name ≡ v.name)
      × Edge v.status.phase st.phase
      × (st.phase ≡ ExperimentPhase.promoted
          → Won a.status.eval_history (prompt_experiment_min_samples a) st)
  Legal a v _ = ⊥

  module _ (env : Env F) (a : AgentDeployment F) (v : PromptVariant F) where
    prompt_written :
        lookup "system_prompt" (("system_prompt", v.spec.system_prompt) ∷ [])
        ≡ some v.spec.system_prompt
    unfolding lookup
    prompt_written = refl

    sent_testing :
        Edge v.status.phase ExperimentPhase.testing
        → (started : Option ℕ) (message : String)
        → Legal a v (
            update_variant_status v.name (record v.status {
              phase = ExperimentPhase.testing;
              experiment_started_at = started;
              message = message;
            }))
    sent_testing edge started message = (refl, edge, λ e. cc)

    start-Sends :
        Edge v.status.phase ExperimentPhase.testing → Sends (Legal a v) (start_experiment env v)
    unfolding start_experiment
    start-Sends edge = search (sends_rules, prompt_written, sent_testing edge) depth 12

    insert_written :
        (entries : Dict String)
        → lookup "system_prompt" (insert "system_prompt" v.spec.system_prompt entries)
          ≡ some v.spec.system_prompt
    insert_written entries =
        lookup-insert "system_prompt" "system_prompt" v.spec.system_prompt entries

    found_or_fresh-Sends :
        (name : String) (found : Result ConfigMap)
        → Sends (Legal a v) (found_or_fresh env name found)
    unfolding found_or_fresh
    found_or_fresh-Sends name (ok cm) = search sends_rules
    found_or_fresh-Sends name (err e) = search sends_rules

    write_winning_prompt-Sends :
        (name : String) → Sends (Legal a v) (write_winning_prompt env name v)
    unfolding write_winning_prompt
    write_winning_prompt-Sends name =
        search (sends_rules, insert_written, found_or_fresh-Sends) depth 12

    promote-Sends :
        (st : ExperimentStatus F)
        → v.status.phase ≡ ExperimentPhase.testing
        → Won a.status.eval_history (prompt_experiment_min_samples a) st
        → Sends (Legal a v) (promote_variant env v st)
    unfolding promote_variant
    promote-Sends st testing won =
        search (sends_rules, write_winning_prompt-Sends, sent_promoted) depth 12
      where
        sent_promoted :
            (time : Option ℕ) (message : String)
            → Legal a v (
                update_variant_status v.name (record st {
                  phase = ExperimentPhase.promoted;
                  promoted_at = time;
                  message = message;
                }))
        sent_promoted time message = (refl, rw testing win, λ _. won)

    reject-Sends :
        (st : ExperimentStatus F)
        → v.status.phase ≡ ExperimentPhase.testing
        → Sends (Legal a v) (reject_variant env v st)
    unfolding reject_variant
    reject-Sends st testing = search (sends_rules, sent_rejected) depth 12
      where
        sent_rejected :
            (time : Option ℕ) (message : String)
            → Legal a v (
                update_variant_status v.name (record st {
                  phase = ExperimentPhase.rejected;
                  rejected_at = time;
                  message = message;
                }))
        sent_rejected time message = (refl, rw testing lose, λ e. cc)

    conclude-Sends :
        (p : ExperimentStatus F × Decision)
        → v.status.phase ≡ ExperimentPhase.testing
        → p.0.phase ≡ v.status.phase
        → (p.1 ≡ promote → Won a.status.eval_history (prompt_experiment_min_samples a) p.0)
        → Sends (Legal a v) (conclude env v p)
    unfolding conclude
    conclude-Sends (st, waiting) testing same won = search (sends_rules, kept) depth 12
      where
        kept : Legal a v (update_variant_status v.name st)
        kept = (refl, rw (same, testing) keep_testing, λ e. cc)
    conclude-Sends (st, promote) testing same won = promote-Sends st testing (won refl)
    conclude-Sends (st, reject) testing same won = reject-Sends st testing

  module _ (env : Env F) (v : PromptVariant F) (w : World F) where
    evaluate-Sent :
        (started : Option ℕ)
        → v.status.phase ≡ ExperimentPhase.testing
        → v.status.experiment_started_at ≡ started
        → Sent (Legal w.agent v) w (evaluate_from env v started w).1
    unfolding evaluate_from ◌>>=◌
    evaluate-Sent none testing started = ([], refl, tt)
    evaluate-Sent (some started_at) testing started =
        let history = w.agent.status.eval_history in
        let min_samples = prompt_experiment_min_samples w.agent in
        (conclude-Sends env w.agent v (assess history started_at min_samples v.status) testing
            (assess-keeps history started_at min_samples v.status).0
            (assess_promote history started_at min_samples v.status started)).at
          w

    advance-Sent :
        (phase : ExperimentPhase)
        → v.status.phase ≡ phase
        → Sent (Legal w.agent v) w (advance_prompt env phase v w).1
    unfolding advance_prompt evaluate_experiment pure
    advance-Sent ExperimentPhase.unset p = (start-Sends env w.agent v (rw p start_unset)).at w
    advance-Sent ExperimentPhase.pending p = (start-Sends env w.agent v (rw p start_pending)).at w
    advance-Sent ExperimentPhase.testing p = evaluate-Sent v.status.experiment_started_at p refl
    advance-Sent ExperimentPhase.promoted p = ([], refl, tt)
    advance-Sent ExperimentPhase.rejected p = ([], refl, tt)

  -- Whatever the environment answers, a pass over a prompt experiment whose variant `v` it fetches
  -- sends nothing but legal calls: reads, ConfigMaps that hold the variant's prompt, and status
  -- updates of `v` along an edge of its life. An update to Promoted carries a significant t-test, on
  -- enough scores, in the variant's favour.
  pub reconcile_prompt_experiment-Legal :
      (env : Env F) (w : World F) (v : PromptVariant F)
      → env.get_variant w.log (prompt_experiment_of w.agent.spec.evolution) ≡ ok v
      → Sent (Legal w.agent v) w (reconcile_prompt_experiment env w).1
  unfolding reconcile_prompt_experiment prompt_fetched ◌>>=◌
  reconcile_prompt_experiment-Legal env w v fetched =
      let name = prompt_experiment_of w.agent.spec.evolution in
      elim (Bool-cases (is_set name)) [
        | inl named ↦
            (let w' = record w { log = read Kind.variant name ∷ w.log } in
              rw (named, fetched)
                (Sent-trans w w' (advance_prompt env v.status.phase v w').1
                  (read Kind.variant name ∷ [], refl, (tt, tt))
                  (advance-Sent env v w' v.status.phase refl)))
        | inr unnamed ↦ rw unnamed ([], refl, tt)
      ]
