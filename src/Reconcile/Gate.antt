-- ===== src/Reconcile/Gate.antt =====
-- Reconcile while a dependency of the agent is not ready.
use std.Path.{subst}
use agentroll.Prelude.{
  ◌≡◌, ◌≢◌, refl, ◌∙◌, sym, Bool, true, false, String, none, List, [], ◌∷◌, All, if◌then◌else◌,
}
use agentroll.Float.{Float64}
use agentroll.Api.{AgentDeployment, Condition}
use agentroll.Kube.{Env, Call, Err, read, update_finalizers, Result, ok, err, Kind}
use agentroll.Kube.Exec.{World, pure, try, ◌>>=◌, ◌>>◌}
use agentroll.Kube.Exec.Sends.{
  Sends, Sent, Sent-trans, Sent-bind, Sends-bind, Sends-try, sends_rules,
}
use agentroll.Kube.Exec.Keeps.{Change, Keeps, keeps_rules}
use agentroll.Deletion.{handle_deletion}
use agentroll.Dependencies.Agents.{holds_back, wait_for, check_agent_dependencies}
use agentroll.Dependencies.Gate.{Ready, check_agent_dependencies-open}
use agentroll.Reconcile.{ensure_finalizer, past_gate, reconcile_live, reconcile_fetched, reconcile}

-- A read, or the write of the finalizers.
abbrev pub Harmless : {F : Type 0} → Call F → Type 0
Harmless (read kind name) = Unit
Harmless (update_finalizers names) = Unit
Harmless _ = ⊥

abbrev same_spec : {F : Type 0} → Change F
same_spec = record { Rel = λ a b. b.spec ≡ a.spec; same = λ a. refl; chain = λ a b c p q. q ∙ p }

module _ {F : Type 0} (env : Env F) where
  holds_back-Harmless :
      (name : String) (r : Result (AgentDeployment F))
      → Sends (Harmless {F = F}) (holds_back env name r)
  unfolding holds_back
  holds_back-Harmless name (ok dep) = search sends_rules depth 8
  holds_back-Harmless name (err e) = search sends_rules depth 8

  wait_for-Harmless : (names : List String) → Sends (Harmless {F = F}) (wait_for env names)
  unfolding wait_for
  wait_for-Harmless [] = search sends_rules
  wait_for-Harmless (name ∷ names) = Sends-bind _ _ (search sends_rules depth 8) λ found.
      Sends-bind _ _ (holds_back-Harmless name found)
        λ waiting. search (sends_rules, wait_for-Harmless names) depth 8

  check-Harmless : Sends (Harmless {F = F}) (check_agent_dependencies env)
  unfolding check_agent_dependencies
  check-Harmless = search (sends_rules, wait_for-Harmless) depth 8

  finalizer-Harmless : Sends (Harmless {F = F}) (ensure_finalizer env)
  unfolding ensure_finalizer
  finalizer-Harmless = search sends_rules depth 14

  finalizer-spec : Keeps (same_spec {F = F}) (ensure_finalizer env)
  unfolding ensure_finalizer
  finalizer-spec = search keeps_rules depth 14

module _ {F : Type 0} ⦃fl : Float64 F⦄ (set_condition : List Condition → Condition → List Condition)
    (env : Env F) where
  waiting-Harmless :
      (a : AgentDeployment F) → Sends Harmless (past_gate set_condition env a (ok true))
  unfolding past_gate
  waiting-Harmless a = search sends_rules depth 8

  broken-Harmless :
      (a : AgentDeployment F) (e : Err) → Sends Harmless (past_gate set_condition env a (err e))
  unfolding past_gate
  broken-Harmless a e = search sends_rules depth 8

  past_gate-Harmless :
      (a : AgentDeployment F) (r : Result Bool) (w : World F)
      → r ≢ ok false
      → Sent Harmless w (past_gate set_condition env a r w).1
  past_gate-Harmless a (ok true) w h = (waiting-Harmless a).at w
  past_gate-Harmless a (ok false) w h = absurd (h refl)
  past_gate-Harmless a (err e) w h = (broken-Harmless a e).at w

  live-Harmless :
      (a : AgentDeployment F) (w : World F)
      → ((v : World F)
          → v.agent.spec ≡ w.agent.spec
          → (check_agent_dependencies env v).0 ≢ ok false)
      → Sent Harmless w (reconcile_live set_condition env a w).1
  unfolding reconcile_live ◌>>=◌
  live-Harmless a w shut = Sent-bind (ensure_finalizer env) _ w (finalizer-Harmless env) λ _ _.
      let v = (ensure_finalizer env w).1 in
      Sent-bind (try (check_agent_dependencies env)) (past_gate set_condition env a) v
        (Sends-try _ (check-Harmless env))
        λ r e.
          past_gate-Harmless a r (check_agent_dependencies env v).1
            (λ d. shut v ((finalizer-spec env).at w) cc)

  -- The pass over an agent that is not being deleted, once it has been fetched.
  pub reconcile-live :
      (w : World F) (name : String) (a : AgentDeployment F)
      → env.get_agent w.log name ≡ ok a
      → a.deleting ≡ false
      → reconcile set_condition env name w
        ≡ reconcile_live set_condition env a
            (record w { agent = a; log = read Kind.agent name ∷ w.log })
  unfolding reconcile reconcile_fetched ◌>>=◌
  reconcile-live w name a found live = rw found (
      subst
        (λ b.
          (if b then (do handle_deletion env; pure none) else reconcile_live set_condition env a)
            (record w { agent = a; log = read Kind.agent name ∷ w.log })
          ≡ reconcile_live set_condition env a
              (record w { agent = a; log = read Kind.agent name ∷ w.log }))
        (sym live) refl)

  -- While a dependency of a live agent does not exist or is not Stable, and the answers about the other
  -- agents do not change, a pass reads and sets the finalizers and does nothing else: no Rollout, no
  -- template, no status and no experiment is written.
  pub reconcile-gated :
      (w : World F) (name : String) (a : AgentDeployment F)
      (answer : String → Result (AgentDeployment F))
      → env.get_agent w.log name ≡ ok a
      → a.deleting ≡ false
      → ((log : List (Call F)) (other : String) → env.get_agent log other ≡ answer other)
      → ¬ All (λ other. Ready (answer other)) a.spec.depends_on
      → Sent Harmless w (reconcile set_condition env name w).1
  reconcile-gated w name a answer found live steady waiting =
      let w1 : World F = record w { agent = a; log = read Kind.agent name ∷ w.log } in
      subst (λ o. Sent Harmless w o.1) (sym (reconcile-live w name a found live))
        (Sent-trans w w1 (reconcile_live set_condition env a w1).1
          (read Kind.agent name ∷ [], refl, (tt, tt))
          (live-Harmless a w1 λ v e passed. waiting (
            subst (λ s. All (λ other. Ready (answer other)) s.depends_on) e
              ((check_agent_dependencies-open env answer steady v).0 passed))))
