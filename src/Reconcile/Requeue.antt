-- ===== src/Reconcile/Requeue.antt =====
-- What a pass asks for at its end.
use agentroll.Prelude.{
  ◌≡◌, refl, ◌∙◌, sym, ap, ℕ, ◌⊎◌, inl, inr, Bool, true, false, String, Option, some, List, ◌∷◌,
  if◌then◌else◌,
}
use std.Path.{subst}
use agentroll.Float.{Float64}
use agentroll.Api.{AgentDeployment, AgentDeploymentPhase, Condition}
use agentroll.Kube.{Env, Result, ok, err, read, Kind}
use agentroll.Kube.Exec.{Exec, World, Event, normal, pure, gets, emit, ◌>>=◌, ◌>>◌, continue}
use agentroll.Kube.Exec.Runs.{Returns, Returns-bind}
use agentroll.Status.{phase_event, emit_phase_event}
use agentroll.Reconcile.{
  requeue_after, report, same_phase, reconcile_ready, past_gate, reconcile_live, reconcile,
}
use agentroll.Reconcile.Gate.{reconcile-live}

-- A rollout is under way, or has not begun.
abbrev pub UnderWay : AgentDeploymentPhase → Type 0
UnderWay p =
    (p ≡ AgentDeploymentPhase.progressing)
    ⊎ (p ≡ AgentDeploymentPhase.pending)
    ⊎ (p ≡ AgentDeploymentPhase.rolling_back)

-- The pass has ended at the gate: its last event says so.
abbrev pub Held : {F : Type 0} → World F → Type 0
Held v =
    (message : String) × (rest : List Event) × (v.events
      ≡ record { severity = normal; reason = "DependencyNotReady"; message = message } ∷ rest)

-- A delay of 15 seconds while the phase that the pass has left in the status is under way, and of 30 when
-- it is not, or when a dependency is waited for.
abbrev pub Delay : {F : Type 0} → Option ℕ → World F → Type 0
Delay q v =
    ((q ≡ some 15) × UnderWay v.agent.status.phase)
    ⊎ ((q ≡ some 30) × ¬ UnderWay v.agent.status.phase)
    ⊎ ((q ≡ some 30) × Held v)

requeue_after_lem :
    (p : AgentDeploymentPhase)
    → ((requeue_after p ≡ 15) × UnderWay p) ⊎ ((requeue_after p ≡ 30) × ¬ UnderWay p)
unfolding requeue_after
requeue_after_lem AgentDeploymentPhase.progressing = inl (refl, inl refl)
requeue_after_lem AgentDeploymentPhase.pending = inl (refl, inr (inl refl))
requeue_after_lem AgentDeploymentPhase.rolling_back = inl (refl, inr (inr refl))
requeue_after_lem AgentDeploymentPhase.unset =
    inr (refl, λ h. elim h [ inl e ↦ cc | inr h' ↦ elim h' [ inl e ↦ cc | inr e ↦ cc ] ])
requeue_after_lem AgentDeploymentPhase.stable =
    inr (refl, λ h. elim h [ inl e ↦ cc | inr h' ↦ elim h' [ inl e ↦ cc | inr e ↦ cc ] ])
requeue_after_lem AgentDeploymentPhase.degraded =
    inr (refl, λ h. elim h [ inl e ↦ cc | inr h' ↦ elim h' [ inl e ↦ cc | inr e ↦ cc ] ])

module _ {F : Type 0} where
  phase_event-agent :
      (p : AgentDeploymentPhase) (a : AgentDeployment F) (v : World F)
      → ((phase_event p a v).0 ≡ ok tt) × ((phase_event p a v).1.agent ≡ v.agent)
  unfolding phase_event pure emit
  phase_event-agent AgentDeploymentPhase.unset a v = (refl, refl)
  phase_event-agent AgentDeploymentPhase.pending a v = (refl, refl)
  phase_event-agent AgentDeploymentPhase.progressing a v = (refl, refl)
  phase_event-agent AgentDeploymentPhase.stable a v = (refl, refl)
  phase_event-agent AgentDeploymentPhase.degraded a v = (refl, refl)
  phase_event-agent AgentDeploymentPhase.rolling_back a v = (refl, refl)

  -- The event, if there is one, and the delay.
  abbrev announce : Bool → AgentDeploymentPhase → Exec F (Option ℕ)
  announce same phase = do
    if same then pure tt else emit_phase_event
    pure (some (requeue_after phase))

  announced-Delay :
      (r : Result (Unit {0})) (u v : World F) (q : Option ℕ)
      → r ≡ ok tt
      → u.agent ≡ v.agent
      → (continue r (λ _. pure (some (requeue_after v.agent.status.phase))) u).0 ≡ ok q
      → Delay q (continue r (λ _. pure (some (requeue_after v.agent.status.phase))) u).1
  unfolding pure
  announced-Delay (ok tt) u v q _ e h = elim (requeue_after_lem v.agent.status.phase) [
    | inl (n, way) ↦ inl (asked n, subst (λ a. UnderWay a.status.phase) (sym e) way)
    | inr (n, settled) ↦ inr (inl (asked n, subst (λ a. ¬ UnderWay a.status.phase) (sym e) settled))
  ]
    where
      asked : {n : ℕ} → requeue_after v.agent.status.phase ≡ n → q ≡ some n
      asked d = cc
  announced-Delay (err d) u v q g e h = cc

  announce-Delay :
      (same : Bool) (v : World F) (q : Option ℕ)
      → (announce same v.agent.status.phase v).0 ≡ ok q
      → Delay q (announce same v.agent.status.phase v).1
  unfolding emit_phase_event ◌>>=◌
  announce-Delay true v q h = announced-Delay (ok tt) v v q refl refl h
  announce-Delay false v q h =
      let (done, kept) = phase_event-agent v.agent.status.phase v.agent v in
      announced-Delay (phase_event v.agent.status.phase v.agent v).0
        (phase_event v.agent.status.phase v.agent v).1 v q done kept h

module _ {F : Type 0} ⦃fl : Float64 F⦄ (set_condition : List Condition → Condition → List Condition)
    (env : Env F) where
  current-Returns :
      (previous : AgentDeploymentPhase)
      → Returns {F = F} Delay (do
        current ← gets (λ w. w.agent.status.phase)
        announce (same_phase current previous) current)
  unfolding ◌>>=◌
  current-Returns previous = record {
    at = λ v q h. announce-Delay (same_phase v.agent.status.phase previous) v q h;
  }

  ready-Returns : (version : String) → Returns Delay (reconcile_ready set_condition env version)
  unfolding reconcile_ready report
  ready-Returns version = search (Returns-bind, current-Returns) depth 10

  gate-Returns :
      (a : AgentDeployment F) (r : Result Bool) → Returns Delay (past_gate set_condition env a r)
  unfolding past_gate emit ◌>>=◌
  gate-Returns a (ok true) = record { at = λ w q h. inr (inr (cc, (_, _, refl))) }
  gate-Returns a (ok false) = ready-Returns _
  gate-Returns a (err e) = record { at = λ w q h. cc }

  live-Returns : (a : AgentDeployment F) → Returns Delay (reconcile_live set_condition env a)
  unfolding reconcile_live
  live-Returns a = search (Returns-bind, gate-Returns) depth 8

  -- A pass over a live agent that ends without an error asks to be run again: after 15 seconds when the
  -- phase that it leaves in the status is Progressing, Pending or RollingBack, and after 30 when it is
  -- another, or when the pass has ended with the event DependencyNotReady.
  pub reconcile-Delay :
      (w : World F) (name : String) (a : AgentDeployment F) (q : Option ℕ)
      → env.get_agent w.log name ≡ ok a
      → a.deleting ≡ false
      → (reconcile set_condition env name w).0 ≡ ok q
      → Delay q (reconcile set_condition env name w).1
  reconcile-Delay w name a q found live h =
      let e = reconcile-live set_condition env w name a found live in
      subst (λ o. Delay q o.1) (sym e)
        ((live-Returns a).at (record w { agent = a; log = read Kind.agent name ∷ w.log }) q
          (sym (ap (λ o. o.0) e) ∙ h))
