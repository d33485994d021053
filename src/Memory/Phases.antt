-- ===== src/Memory/Phases.antt =====
-- The two changes of phase on which reconcileMemoryBackend acts.
use agentroll.Prelude.{◌≡◌, ◌≢◌, refl, ◌⊎◌, inl, inr, Bool, true, false, not, ◌&&◌}
use agentroll.Api.{AgentDeploymentPhase, MemorySpec}
use agentroll.Memory.Backend.{is_progressing, is_failing}

-- A canary has started: the Rollout is under way and the status does not say so yet.
abbrev pub Starts : MemorySpec → AgentDeploymentPhase → AgentDeploymentPhase → Type 0
Starts mem previous live =
    (mem.snapshot_on_promotion ≡ true)
    × (previous ≢ AgentDeploymentPhase.progressing)
    × (live ≡ AgentDeploymentPhase.progressing)

-- A canary has failed: the status says that it is under way, and the Rollout is degraded.
abbrev pub Fails : MemorySpec → AgentDeploymentPhase → AgentDeploymentPhase → Type 0
Fails mem previous live =
    (mem.rollback_memory_on_canary_fail ≡ true)
    × (previous ≡ AgentDeploymentPhase.progressing)
    × ((live ≡ AgentDeploymentPhase.degraded) ⊎ (live ≡ AgentDeploymentPhase.rolling_back))

and_lem : (a b : Bool) → (a && b) ≡ true → (a ≡ true) × (b ≡ true)
and_lem true b h = (refl, h)
and_lem false b h = cc

progressing_lem :
    (p : AgentDeploymentPhase)
    → (is_progressing p ≡ true → p ≡ AgentDeploymentPhase.progressing)
      × (not (is_progressing p) ≡ true → p ≢ AgentDeploymentPhase.progressing)
progressing_lem AgentDeploymentPhase.progressing = ((λ _. refl), λ h. cc)
progressing_lem AgentDeploymentPhase.unset = ((λ h. cc), λ _ e. cc)
progressing_lem AgentDeploymentPhase.pending = ((λ h. cc), λ _ e. cc)
progressing_lem AgentDeploymentPhase.stable = ((λ h. cc), λ _ e. cc)
progressing_lem AgentDeploymentPhase.degraded = ((λ h. cc), λ _ e. cc)
progressing_lem AgentDeploymentPhase.rolling_back = ((λ h. cc), λ _ e. cc)

failing_lem :
    (p : AgentDeploymentPhase)
    → is_failing p ≡ true
    → (p ≡ AgentDeploymentPhase.degraded) ⊎ (p ≡ AgentDeploymentPhase.rolling_back)
failing_lem AgentDeploymentPhase.degraded h = inl refl
failing_lem AgentDeploymentPhase.rolling_back h = inr refl
failing_lem AgentDeploymentPhase.unset h = cc
failing_lem AgentDeploymentPhase.pending h = cc
failing_lem AgentDeploymentPhase.progressing h = cc
failing_lem AgentDeploymentPhase.stable h = cc

pub starts_lem :
    (mem : MemorySpec) (previous live : AgentDeploymentPhase)
    → (mem.snapshot_on_promotion && (not (is_progressing previous) && is_progressing live)) ≡ true
    → Starts mem previous live
starts_lem mem previous live h =
    let (on, rest) = and_lem _ _ h in
    let (before, after) = and_lem _ _ rest in
    (on, (progressing_lem previous).1 before, (progressing_lem live).0 after)

pub fails_lem :
    (mem : MemorySpec) (previous live : AgentDeploymentPhase)
    → (mem.rollback_memory_on_canary_fail && (is_progressing previous && is_failing live)) ≡ true
    → Fails mem previous live
fails_lem mem previous live h =
    let (on, rest) = and_lem _ _ h in
    let (before, after) = and_lem _ _ rest in
    (on, (progressing_lem previous).0 before, failing_lem live after)
