-- ===== src/Status/Stable.antt =====
-- Which version updateStatus reports as the stable one, and which phases it reports.
use agentroll.Prelude.{
  ◌≡◌, ◌≢◌, refl, sym, ap, ◌∙◌, ◌⊎◌, inl, inr, Bool, true, false, ◌&&◌, String, ◌==◌, List, [], ◌∷◌,
  Bool-cases, is_set,
}
use agentroll.Api.{AgentDeployment, AgentDeploymentPhase, Condition}
use agentroll.Kube.{Env, Result, ok, err, read, Kind, RolloutPhase, RolloutState, ReplicaSet}
use agentroll.Kube.Exec.{World, ◌>>=◌}
use agentroll.Kube.Exec.Keeps.{Change, Keeps, keeps_rules}
use agentroll.Status.{
  map_rollout_phase, is_owned, version_label, owned_version, listed_version,
  stable_rs_composite_version, sync_stable_version, sync_rollout, set_status_conditions,
  update_agent_status,
}

-- Some ReplicaSet of the list belongs to the Rollout and bears this version.
abbrev pub Bears : String → String → List ReplicaSet → Type 0
Bears rollout version [] = ⊥
Bears rollout version (rs ∷ rest) =
    ((is_owned rollout rs ≡ true) × (version_label rs ≡ version)) ⊎ Bears rollout version rest

owned_version-Bears :
    (rollout version : String) (sets : List ReplicaSet)
    → owned_version rollout sets ≡ version
    → is_set version ≡ true
    → Bears rollout version sets
unfolding owned_version
owned_version-Bears rollout version [] e h = absurd (unset_empty (ap is_set e ∙ h))
  where
    unset_empty : is_set "" ≢ true
    unset_empty = λ d. cc
owned_version-Bears rollout version (rs ∷ rest) e h = elim (Bool-cases (is_owned rollout rs)) [
  | inl mine ↦
      (let first : owned_version rollout (rs ∷ rest) ≡ version_label rs = rw mine refl in
        inl (mine, sym first ∙ e))
  | inr other ↦
      (let skipped : owned_version rollout (rs ∷ rest) ≡ owned_version rollout rest =
          rw other refl in
        inr (owned_version-Bears rollout version rest (sym skipped ∙ e) h))
]

-- The version after the pass, given the answer about the ReplicaSets.
abbrev pub Kept : String → Result (List ReplicaSet) → String → String → Type 0
Kept rollout (err e) old new = new ≡ old
Kept rollout (ok sets) old new = (new ≡ old) ⊎ Bears rollout new sets

Kept-same :
    (rollout : String) (r : Result (List ReplicaSet)) (old : String) → Kept rollout r old old
Kept-same rollout (err e) old = refl
Kept-same rollout (ok sets) old = inl refl

Kept-listed :
    (rollout : String) (r : Result (List ReplicaSet)) (old : String)
    → is_set (listed_version rollout r) ≡ true
    → Kept rollout r old (listed_version rollout r)
unfolding listed_version
Kept-listed rollout (err e) old h = cc
Kept-listed rollout (ok sets) old h =
    inr (owned_version-Bears rollout (owned_version rollout sets) sets refl h)

and_false : (b : Bool) → (b && false) ≡ false
and_false true = refl
and_false false = refl

map_rollout_phase-settles :
    (p : RolloutPhase) → map_rollout_phase p ≢ AgentDeploymentPhase.rolling_back
unfolding map_rollout_phase
map_rollout_phase-settles RolloutPhase.healthy = λ e. cc
map_rollout_phase-settles RolloutPhase.progressing = λ e. cc
map_rollout_phase-settles RolloutPhase.paused = λ e. cc
map_rollout_phase-settles RolloutPhase.degraded = λ e. cc
map_rollout_phase-settles RolloutPhase.other = λ e. cc

module _ {F : Type 0} where
  -- While a canary is in flight, that is while the Rollout has a stable ReplicaSet that is not the
  -- current one, updateStatus keeps the stable version of the status or takes the version that a
  -- ReplicaSet of this very Rollout bears; when the ReplicaSets cannot be listed it keeps it.
  pub update_agent_status-Kept :
      (set_condition : List Condition → Condition → List Condition) (env : Env F) (w : World F)
      (composite_version : String) (rollout : RolloutState)
      → env.get_rollout w.log w.agent.name ≡ ok rollout
      → is_set rollout.stable_rs ≡ true
      → (rollout.current_pod_hash == rollout.stable_rs) ≡ false
      → Kept w.agent.name
          (env.list_replica_sets (read Kind.rollout w.agent.name ∷ w.log) rollout.stable_rs)
          w.agent.status.stable_version
          (update_agent_status set_condition env composite_version w).1.agent.status.stable_version
  unfolding update_agent_status sync_rollout sync_stable_version stable_rs_composite_version
      set_status_conditions ◌>>=◌
  update_agent_status-Kept set_condition env w composite_version rollout found stable flying =
      let answer =
        env.list_replica_sets (read Kind.rollout w.agent.name ∷ w.log) rollout.stable_rs in
      let old = w.agent.status.stable_version in
      let moved : (is_set rollout.current_pod_hash && rollout.current_pod_hash == rollout.stable_rs)
          ≡ false =
        ap (λ b. is_set rollout.current_pod_hash && b) flying ∙ and_false _ in
      elim (Bool-cases (is_set (listed_version w.agent.name answer))) [
        | inl listed ↦
            rw (found, moved, stable, listed) (Kept-listed w.agent.name answer old listed)
        | inr missing ↦ rw (found, moved, stable, missing) (Kept-same w.agent.name answer old)
      ]

  -- The phase is as it was, or it is not RollingBack.
  abbrev pub Settles : AgentDeployment F → AgentDeployment F → Type 0
  Settles a b =
      (b.status.phase ≡ a.status.phase) ⊎ (b.status.phase ≢ AgentDeploymentPhase.rolling_back)

  Settles-chain : (a b c : AgentDeployment F) → Settles a b → Settles b c → Settles a c
  Settles-chain a b c p (inr q) = inr q
  Settles-chain a b c (inl p) (inl q) = inl (q ∙ p)
  Settles-chain a b c (inr p) (inl q) = inr (λ e. p (sym q ∙ e))

  abbrev settles : Change F
  settles = record { Rel = Settles; same = λ a. inl refl; chain = Settles-chain }

  Settles-version :
      (version : String) (a : AgentDeployment F)
      → Settles a (record a { status = record a.status { stable_version = version } })
  Settles-version version a = inl refl

  Settles-conditions :
      (set_condition : List Condition → Condition → List Condition) (a : AgentDeployment F)
      → Settles a (set_status_conditions set_condition a)
  unfolding set_status_conditions
  Settles-conditions set_condition a = inl refl

  Settles-generation :
      (a : AgentDeployment F)
      → Settles a (record a { status = record a.status { observed_generation = a.generation } })
  Settles-generation a = inl refl

  sync_rollout-Keeps :
      (env : Env F) (version : String) (found : Result RolloutState)
      → Keeps settles (sync_rollout env version found)
  unfolding sync_rollout sync_stable_version stable_rs_composite_version
  sync_rollout-Keeps env version (ok r) = search (keeps_rules, phase_set, Settles-version) depth 14
    where
      phase_set :
          (a : AgentDeployment F)
          → Settles a (record a { status = record a.status { phase = map_rollout_phase r.phase } })
      phase_set a = inr (map_rollout_phase-settles r.phase)
  sync_rollout-Keeps env version (err e) = search (keeps_rules, waits) depth 14
    where
      waits :
          (a : AgentDeployment F)
          → Settles a
              (record a { status = record a.status { phase = AgentDeploymentPhase.pending } })
      waits a = inr (λ d. cc)

  -- Whatever the Rollout says, and also when it cannot be read or the status cannot be written,
  -- updateStatus does not move an agent into the phase RollingBack.
  pub update_agent_status-Settles :
      (set_condition : List Condition → Condition → List Condition) (env : Env F) (w : World F)
      (composite_version : String)
      → Settles w.agent (update_agent_status set_condition env composite_version w).1.agent
  unfolding update_agent_status
  update_agent_status-Settles set_condition env w composite_version = pass.at w
    where
      pass : Keeps settles (update_agent_status set_condition env composite_version)
      pass =
          search (keeps_rules, sync_rollout-Keeps, Settles-conditions, Settles-generation) depth 14
