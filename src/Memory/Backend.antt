-- ===== src/Memory/Backend.antt =====
-- internal/controller/memory_backend.go, but for the two functions that call mem0.
use agentroll.Prelude.{
  Bool, true, false, not, ◌&&◌, ◌||◌, String, ◌<>◌, Option, none, some, [], ◌∷◌, lookup, quoted,
  is_set, if◌then◌else◌,
}
use agentroll.Float.{Float64}
use agentroll.Api.{
  AgentDeployment, AgentDeploymentPhase, MemorySpec, MemoryBackendSpec, MemoryStatus,
}
use agentroll.Kube.{
  Env, create_secret, update_secret, Result, ok, err, is_not_found, failed, wrap, Kind, Secret,
  RolloutState,
}
use agentroll.Kube.Exec.{Exec, pure, raise, gets, try, wrapping, modify, perform, ask, ◌>>=◌, ◌>>◌}
use agentroll.Status.{map_rollout_phase}
use agentroll.Memory.Mem0.{mem0_export_memory, mem0_import_memory}
use agentroll.Memory.Lifecycle.{memory_or_new, with_memory}

-- memorySnapshotSecretName.
unfoldable pub memory_snapshot_secret_name : String → String
memory_snapshot_secret_name agent_name = agent_name <> "-memory-snapshot"

abbrev pub is_progressing : AgentDeploymentPhase → Bool
is_progressing AgentDeploymentPhase.progressing = true
is_progressing _ = false

abbrev pub is_failing : AgentDeploymentPhase → Bool
is_failing AgentDeploymentPhase.degraded = true
is_failing AgentDeploymentPhase.rolling_back = true
is_failing _ = false

module _ {F : Type 0} where
  abbrev pub snapshot_secret : Option (MemoryStatus F) → String
  snapshot_secret none = ""
  snapshot_secret (some ms) = ms.last_memory_snapshot_secret

module _ {F : Type 0} (env : Env F) where
  unfoldable pub key_of : String → Option String → Exec F String
  key_of secret_ref none =
      raise (failed ("readBackendAPIKey: secret " <> quoted secret_ref <> " missing MEM0_API_KEY"))
  key_of secret_ref (some key) = pure key

  -- readBackendAPIKey.
  unfoldable pub read_backend_api_key : String → Exec F String
  read_backend_api_key secret_ref = do
    secret ←
        wrapping ("readBackendAPIKey: get secret " <> quoted secret_ref)
          (ask Kind.secret secret_ref env.get_secret)
    key_of secret_ref (lookup "MEM0_API_KEY" secret.entries)

  -- Create the Secret, or replace the labels and the data of the one that is there.
  unfoldable pub store_snapshot : Secret → Result Secret → Exec F (Unit {0})
  store_snapshot desired (ok existing) = wrapping "takeMemorySnapshot: update secret" (
      perform env
        (update_secret (record existing { entries = desired.entries; labels = desired.labels })))
  store_snapshot desired (err e) =
      if is_not_found e
      then wrapping "takeMemorySnapshot: create secret" (perform env (create_secret desired))
      else raise (wrap "takeMemorySnapshot: get secret" e)

  -- takeMemorySnapshot.
  unfoldable pub take_memory_snapshot :
      ⦃fl : Float64 F⦄ → String → MemoryBackendSpec → Exec F (Unit {0})
  take_memory_snapshot composite_version backend = do
    a ← gets (λ w. w.agent)
    api_key ← wrapping "takeMemorySnapshot" (read_backend_api_key backend.secret_ref)
    snapshot ← wrapping "takeMemorySnapshot: export failed" (mem0_export_memory env backend api_key)
    let secret_name = memory_snapshot_secret_name a.name
    found ← try (ask Kind.secret secret_name env.get_secret)
    store_snapshot
        (record {
          name = secret_name;
          labels =
              ("app.kubernetes.io/managed-by", "agentroll")
              ∷ ("agentroll.dev/agent", a.name)
              ∷ ("agentroll.dev/snapshot-version", composite_version)
              ∷ [];
          entries = ("snapshot.json", snapshot) ∷ [];
        })
        found
    modify λ b. with_memory b (record (memory_or_new b.status.memory) {
      last_memory_snapshot_at = some env.now;
      last_memory_snapshot_secret = secret_name;
      last_memory_snapshot_version = composite_version;
    })

  -- The rest of a restore, once the Secret has been read.
  unfoldable pub import_snapshot : String → MemoryBackendSpec → Option String → Exec F (Unit {0})
  import_snapshot secret_name backend none =
      raise
        (failed ("restoreMemorySnapshot: snapshot.json key missing from secret " <> secret_name))
  import_snapshot secret_name backend (some snapshot) = do
    api_key ← wrapping "restoreMemorySnapshot" (read_backend_api_key backend.secret_ref)
    wrapping "restoreMemorySnapshot: import failed"
        (mem0_import_memory env backend api_key snapshot)

  unfoldable pub restore_from : String → MemoryBackendSpec → Result Secret → Exec F (Unit {0})
  restore_from secret_name backend (ok secret) =
      import_snapshot secret_name backend (lookup "snapshot.json" secret.entries)
  restore_from secret_name backend (err e) =
      if is_not_found e then pure tt else raise (wrap "restoreMemorySnapshot: get secret" e)

  -- restoreMemorySnapshot.
  unfoldable pub restore_memory_snapshot : MemoryBackendSpec → Exec F (Unit {0})
  restore_memory_snapshot backend = do
    a ← gets (λ w. w.agent)
    let secret_name = snapshot_secret a.status.memory
    if is_set secret_name
        then (do
          found ← try (ask Kind.secret secret_name env.get_secret)
          restore_from secret_name backend found)
        else pure tt

  -- What the live phase and the phase of the status ask for.
  unfoldable pub on_phases :
      ⦃fl : Float64 F⦄
      → String
      → MemorySpec
      → MemoryBackendSpec
      → AgentDeploymentPhase
      → AgentDeploymentPhase
      → Exec F (Unit {0})
  on_phases composite_version mem backend previous live = do
    if mem.snapshot_on_promotion && (not (is_progressing previous) && is_progressing live)
        then wrapping "reconcileMemoryBackend" (take_memory_snapshot composite_version backend)
        else pure tt
    if mem.rollback_memory_on_canary_fail && (is_progressing previous && is_failing live)
        then wrapping "reconcileMemoryBackend" (restore_memory_snapshot backend)
        else pure tt

  unfoldable pub on_rollout :
      ⦃fl : Float64 F⦄
      → String
      → MemorySpec
      → MemoryBackendSpec
      → AgentDeployment F
      → Result RolloutState
      → Exec F (Unit {0})
  on_rollout composite_version mem backend a (ok rollout) =
      on_phases composite_version mem backend a.status.phase (map_rollout_phase rollout.phase)
  on_rollout composite_version mem backend a (err e) =
      if is_not_found e
      then pure tt
      else raise (wrap "reconcileMemoryBackend: failed to get Rollout" e)

  unfoldable pub backend_pass :
      ⦃fl : Float64 F⦄ → String → MemorySpec → Option MemoryBackendSpec → Exec F (Unit {0})
  backend_pass composite_version mem none = pure tt
  backend_pass composite_version mem (some backend) =
      if mem.snapshot_on_promotion || mem.rollback_memory_on_canary_fail
      then (do
        a ← gets (λ w. w.agent)
        found ← try (ask Kind.rollout a.name env.get_rollout)
        on_rollout composite_version mem backend a found)
      else pure tt

  unfoldable pub backend_for : ⦃fl : Float64 F⦄ → String → Option MemorySpec → Exec F (Unit {0})
  backend_for composite_version none = pure tt
  backend_for composite_version (some mem) = backend_pass composite_version mem mem.backend

  -- reconcileMemoryBackend.
  unfoldable pub reconcile_memory_backend : ⦃fl : Float64 F⦄ → String → Exec F (Unit {0})
  reconcile_memory_backend composite_version = do
    a ← gets (λ w. w.agent)
    backend_for composite_version a.spec.memory
