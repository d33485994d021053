-- ===== src/Memory/Edges.antt =====
-- When the memory of an agent is copied and when it is put back, seen in the calls of
-- reconcileMemoryBackend.
use std.Path.{subst}
use agentroll.Prelude.{
  ◌≡◌, refl, sym, ◌⊎◌, inl, inr, ◌||◌, String, Option, none, some, [], ◌∷◌, lookup, Bool-cases,
}
use agentroll.Float.{Float64}
use agentroll.Api.{AgentDeployment, AgentDeploymentPhase, MemorySpec, MemoryBackendSpec}
use agentroll.Kube.{
  Env, Call, read, create_secret, update_secret, http, HttpRequest, HttpResponse, Result, ok, err,
  Kind, Secret, RolloutState,
}
use agentroll.Kube.Exec.{World, ◌>>=◌}
use agentroll.Kube.Exec.Sends.{Sends, Sent, Sent-trans, Sends-bind, sends_rules}
use agentroll.Status.{map_rollout_phase}
use agentroll.Langfuse.{exchange}
use agentroll.Memory.Phases.{Starts, Fails, starts_lem, fails_lem}
use agentroll.Memory.Mem0.{
  export_request, import_request, mem0_do, exported, mem0_export_memory, imported,
  mem0_import_memory,
}
use agentroll.Memory.Backend.{
  key_of, read_backend_api_key, store_snapshot, take_memory_snapshot, import_snapshot, restore_from,
  restore_memory_snapshot, on_phases, on_rollout, backend_pass, backend_for,
  reconcile_memory_backend,
}

-- What a pass may send, at the two phases: it reads; at the start of a canary it asks the backend of
-- the spec for the memory and writes a Secret; at the failure of one it sends memory to that backend.
abbrev pub Timely :
    {F : Type 0}
    → Env F
    → MemorySpec
    → MemoryBackendSpec
    → AgentDeploymentPhase
    → AgentDeploymentPhase
    → Call F
    → Type 0
Timely env mem backend previous live (read kind name) = Unit
Timely env mem backend previous live (http r) =
    (Starts mem previous live × ((key : String) × (r ≡ export_request env backend key)))
    ⊎ (Fails mem previous live
        × ((key : String) × (snapshot : String) × (r ≡ import_request env backend key snapshot)))
Timely env mem backend previous live (create_secret s) = Starts mem previous live
Timely env mem backend previous live (update_secret s) = Starts mem previous live
Timely env mem backend previous live _ = ⊥

-- The same, by the answer about the Rollout: without one, a pass only reads.
abbrev pub TimelyOn :
    {F : Type 0}
    → Env F
    → MemorySpec
    → MemoryBackendSpec
    → AgentDeploymentPhase
    → Result RolloutState
    → Call F
    → Type 0
TimelyOn env mem backend previous (ok rollout) call =
    Timely env mem backend previous (map_rollout_phase rollout.phase) call
TimelyOn env mem backend previous (err e) (read kind name) = Unit
TimelyOn env mem backend previous (err e) _ = ⊥

module _ {F : Type 0} ⦃fl : Float64 F⦄ (env : Env F) (mem : MemorySpec)
    (backend : MemoryBackendSpec) (previous live : AgentDeploymentPhase) where
  key_of-Sends :
      (secret_ref : String) (found : Option String)
      → Sends (Timely {F = F} env mem backend previous live) (key_of env secret_ref found)
  unfolding key_of
  key_of-Sends secret_ref none = search sends_rules
  key_of-Sends secret_ref (some key) = search sends_rules

  api_key-Sends :
      (secret_ref : String)
      → Sends (Timely {F = F} env mem backend previous live) (read_backend_api_key env secret_ref)
  unfolding read_backend_api_key
  api_key-Sends secret_ref = search (sends_rules, key_of-Sends) depth 12

  do-Sends :
      (name : String) (r : HttpRequest) (problem : Option String)
      → Timely {F = F} env mem backend previous live (http r)
      → Sends (Timely {F = F} env mem backend previous live) (mem0_do env name r problem)
  unfolding mem0_do exchange
  do-Sends name r (some text) h = search sends_rules
  do-Sends name r none h = search sends_rules

  exported-Sends :
      (r : HttpResponse) (problem : Option String)
      → Sends (Timely {F = F} env mem backend previous live) (exported env r problem)
  unfolding exported
  exported-Sends r (some text) = search sends_rules
  exported-Sends r none = search sends_rules

  export-Sends :
      Starts mem previous live
      → (key : String)
      → Sends (Timely {F = F} env mem backend previous live) (mem0_export_memory env backend key)
  unfolding mem0_export_memory
  export-Sends starts key =
      Sends-bind _ _ (do-Sends _ (export_request env backend key) _ (inl (starts, (key, refl))))
        (λ r. exported-Sends r r.unread)

  imported-Sends :
      (r : HttpResponse) → Sends (Timely {F = F} env mem backend previous live) (imported env r)
  unfolding imported
  imported-Sends r = search sends_rules

  put_back-Sends :
      Fails mem previous live
      → (key snapshot : String)
      → Sends
          (Timely {F = F} env mem backend previous live)
          (mem0_import_memory env backend key snapshot)
  unfolding mem0_import_memory
  put_back-Sends fails key snapshot =
      Sends-bind _ _
        (do-Sends _ (import_request env backend key snapshot) _
          (inr (fails, (key, snapshot, refl))))
        imported-Sends

  store-Sends :
      Starts mem previous live
      → (desired : Secret) (found : Result Secret)
      → Sends (Timely {F = F} env mem backend previous live) (store_snapshot env desired found)
  unfolding store_snapshot
  store-Sends starts desired (ok existing) = search sends_rules depth 12
  store-Sends starts desired (err e) = search sends_rules depth 12

  take-Sends :
      (version : String)
      → Starts mem previous live
      → Sends
          (Timely {F = F} env mem backend previous live)
          (take_memory_snapshot env version backend)
  unfolding take_memory_snapshot
  take-Sends version starts =
      search (sends_rules, api_key-Sends, store-Sends, export-Sends) depth 16

  import-Sends :
      Fails mem previous live
      → (name : String) (found : Option String)
      → Sends
          (Timely {F = F} env mem backend previous live)
          (import_snapshot env name backend found)
  unfolding import_snapshot
  import-Sends fails name none = search sends_rules
  import-Sends fails name (some snapshot) =
      search (sends_rules, api_key-Sends, put_back-Sends) depth 12

  restore_from-Sends :
      Fails mem previous live
      → (name : String) (found : Result Secret)
      → Sends (Timely {F = F} env mem backend previous live) (restore_from env name backend found)
  unfolding restore_from
  restore_from-Sends fails name (ok secret) =
      import-Sends fails name (lookup "snapshot.json" secret.entries)
  restore_from-Sends fails name (err e) = search sends_rules

  restore-Sends :
      Fails mem previous live
      → Sends (Timely {F = F} env mem backend previous live) (restore_memory_snapshot env backend)
  unfolding restore_memory_snapshot
  restore-Sends fails = search (sends_rules, restore_from-Sends) depth 12

  on_phases-Sends :
      (version : String)
      → Sends
          (Timely {F = F} env mem backend previous live)
          (on_phases env version mem backend previous live)
  unfolding on_phases
  on_phases-Sends version =
      search
        (
          sends_rules,
          take-Sends,
          restore-Sends,
          starts_lem mem previous live,
          fails_lem mem previous live,
        )
        depth 14

module _ {F : Type 0} ⦃fl : Float64 F⦄ (env : Env F) (version : String) (mem : MemorySpec)
    (backend : MemoryBackendSpec) where
  on_rollout-Sends :
      (a : AgentDeployment F) (found : Result RolloutState)
      → Sends
          (TimelyOn {F = F} env mem backend a.status.phase found)
          (on_rollout env version mem backend a found)
  unfolding on_rollout
  on_rollout-Sends a (ok rollout) =
      on_phases-Sends env mem backend a.status.phase (map_rollout_phase rollout.phase) version
  on_rollout-Sends a (err e) = search sends_rules depth 8

  asked-TimelyOn :
      (previous : AgentDeploymentPhase) (found : Result RolloutState) (name : String)
      → TimelyOn {F = F} env mem backend previous found (read Kind.rollout name)
  asked-TimelyOn previous (ok rollout) name = tt
  asked-TimelyOn previous (err e) name = tt

  backend_pass-Sent :
      (w : World F)
      → Sent
          (TimelyOn env mem backend w.agent.status.phase (env.get_rollout w.log w.agent.name))
          w
          (backend_pass env version mem (some backend) w).1
  unfolding backend_pass ◌>>=◌
  backend_pass-Sent w =
      let found = env.get_rollout w.log w.agent.name in
      let w' = record w { log = read Kind.rollout w.agent.name ∷ w.log } in
      elim (Bool-cases (mem.snapshot_on_promotion || mem.rollback_memory_on_canary_fail)) [
        | inl on ↦ rw on (
            Sent-trans w w' (on_rollout env version mem backend w.agent found w').1
              (
                read Kind.rollout w.agent.name ∷ [],
                refl,
                (asked-TimelyOn w.agent.status.phase found w.agent.name, tt),
              )
              ((on_rollout-Sends w.agent found).at w'))
        | inr off ↦ rw off ([], refl, tt)
      ]

-- Whatever the environment answers, a pass over the memory backend asks it for the memory, and writes a
-- Secret, only when a canary starts (the Rollout is there and under way, the status not yet) and
-- snapshotOnPromotion is set; it sends memory to the backend only when a canary fails (the status is
-- under way, the Rollout degraded) and rollbackMemoryOnCanaryFail is set. So it never does both, and
-- without an answer about the Rollout it does neither.
pub reconcile_memory_backend-Timely :
    {F : Type 0}
    → ⦃fl : Float64 F⦄
    → (env : Env F) (w : World F) (version : String) (mem : MemorySpec)
      (backend : MemoryBackendSpec)
    → w.agent.spec.memory ≡ some mem
    → mem.backend ≡ some backend
    → Sent
        (TimelyOn env mem backend w.agent.status.phase (env.get_rollout w.log w.agent.name))
        w
        (reconcile_memory_backend env version w).1
unfolding reconcile_memory_backend backend_for ◌>>=◌
reconcile_memory_backend-Timely env w version mem backend spec given =
    let T = TimelyOn env mem backend w.agent.status.phase (env.get_rollout w.log w.agent.name) in
    subst (λ o. Sent T w (backend_for env version o w).1) (sym spec)
      (subst (λ o. Sent T w (backend_pass env version mem o w).1) (sym given)
        (backend_pass-Sent env version mem backend w))
