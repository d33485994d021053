-- ===== src/Status.antt =====
-- updateStatus, setStatusConditions, emitPhaseEvent, stableRSCompositeVersion and mapRolloutPhase of
-- internal/controller/agentdeployment_controller.go.
pub mod Conditions
pub mod Stable
use agentroll.Prelude.{
  ℕ, Bool, true, false, ◌&&◌, String, ◌<>◌, Option, none, some, List, [], ◌∷◌, any_of, lookup,
  text_or_empty, decimal, is_set, ◌==◌, if◌then◌else◌,
}
use agentroll.Api.{AgentDeployment, AgentDeploymentPhase, AgentDeploymentStatus, Condition}
use agentroll.Kube.{
  Env, Call, Result, ok, err, is_not_found, wrap, Kind, RolloutPhase, RolloutState, ReplicaSet,
  OwnerReference,
}
use agentroll.Kube.Exec.{
  Exec, pure, raise, gets, try, modify, emit, normal, warning, perform, ask, ◌>>=◌, ◌>>◌,
}

-- mapRolloutPhase.
unfoldable pub map_rollout_phase : RolloutPhase → AgentDeploymentPhase
map_rollout_phase RolloutPhase.healthy = AgentDeploymentPhase.stable
map_rollout_phase RolloutPhase.progressing = AgentDeploymentPhase.progressing
map_rollout_phase RolloutPhase.paused = AgentDeploymentPhase.progressing
map_rollout_phase RolloutPhase.degraded = AgentDeploymentPhase.degraded
map_rollout_phase RolloutPhase.other = AgentDeploymentPhase.pending

-- `ref.Kind == "Rollout" && ref.Name == rolloutName`, for some owner.
abbrev pub is_owned : String → ReplicaSet → Bool
is_owned rollout rs =
    any_of (λ (ref : OwnerReference). ref.kind == "Rollout" && ref.name == rollout) rs.owners

abbrev pub version_label : ReplicaSet → String
version_label rs = text_or_empty (lookup "agentroll.dev/composite-version" rs.template_labels)

-- The label of the first ReplicaSet that the Rollout owns.
unfoldable pub owned_version : String → List ReplicaSet → String
owned_version rollout [] = ""
owned_version rollout (rs ∷ rest) =
    let later = owned_version rollout rest in
    if is_owned rollout rs then version_label rs else later

unfoldable pub listed_version : String → Result (List ReplicaSet) → String
listed_version rollout (ok sets) = owned_version rollout sets
listed_version rollout (err e) = ""

-- `if weights != nil { weights.Canary.Weight } else { 0 }`.
abbrev weight_or_0 : Option ℕ → ℕ
weight_or_0 none = 0
weight_or_0 (some weight) = weight

module _ {F : Type 0} where
  abbrev set_phase : AgentDeploymentPhase → AgentDeployment F → AgentDeployment F
  set_phase phase a = record a { status = record a.status { phase = phase } }

  abbrev set_stable : String → AgentDeployment F → AgentDeployment F
  set_stable version a = record a { status = record a.status { stable_version = version } }

  abbrev set_canary_weight : ℕ → AgentDeployment F → AgentDeployment F
  set_canary_weight weight a = record a { status = record a.status { canary_weight = weight } }

module _ {F : Type 0} (env : Env F) where
  -- stableRSCompositeVersion.
  unfoldable pub stable_rs_composite_version : String → String → Exec F String
  stable_rs_composite_version rollout stable_hash = do
    found ← try (ask Kind.replica_sets stable_hash env.list_replica_sets)
    pure (listed_version rollout found)

  -- The rule for status.stableVersion.
  unfoldable pub sync_stable_version : String → RolloutState → Exec F (Unit {0})
  sync_stable_version composite_version rollout =
      if is_set rollout.current_pod_hash && rollout.current_pod_hash == rollout.stable_rs
      then modify (set_stable composite_version)
      else if is_set rollout.stable_rs
      then (do
        a ← gets (λ w. w.agent)
        version ← stable_rs_composite_version a.name rollout.stable_rs
        if is_set version then modify (set_stable version) else pure tt)
      else modify (set_stable composite_version)

  -- What the Rollout, as fetched, says of the phase, the versions and the weight.
  unfoldable pub sync_rollout : String → Result RolloutState → Exec F (Unit {0})
  sync_rollout composite_version (ok rollout) = do
    modify (set_phase (map_rollout_phase rollout.phase))
    sync_stable_version composite_version rollout
    modify (set_canary_weight (weight_or_0 rollout.canary_weight))
  sync_rollout composite_version (err e) =
      if is_not_found e
      then modify (set_phase AgentDeploymentPhase.pending)
      else raise (wrap "failed to get Rollout status" e)

-- The status, reason and message of the conditions Available, Progressing and Degraded.
unfoldable pub conditions_of :
    {F : Type 0}
    → AgentDeploymentPhase
    → AgentDeploymentStatus F
    → (Bool × String × String) × (Bool × String × String) × (Bool × String × String)
conditions_of AgentDeploymentPhase.stable st = (
  (true, "Stable", "agent is stable at version " <> st.stable_version),
  (false, "Stable", "no rollout in progress"),
  (false, "Stable", "agent is healthy"),
)
conditions_of AgentDeploymentPhase.progressing st =
    let message = "canary rollout in progress at " <> decimal st.canary_weight <> "% weight" in
    (
      (false, "Progressing", message),
      (true, "CanaryInProgress", message),
      (false, "Progressing", "no degradation detected"),
    )
conditions_of AgentDeploymentPhase.degraded st = (
  (false, "Degraded", "agent analysis failed"),
  (false, "Degraded", "rollout halted due to degradation"),
  (true, "AnalysisFailed", "canary analysis failed; manual intervention may be required"),
)
conditions_of AgentDeploymentPhase.rolling_back st = (
  (false, "RollingBack", "rolling back to previous stable version"),
  (true, "RollingBack", "rollback in progress"),
  (true, "RollingBack", "canary rejected; rollback in progress"),
)
conditions_of _ st = (
  (false, "Pending", "agent deployment is initializing"),
  (false, "Pending", "waiting for initial rollout"),
  (false, "Pending", "no degradation detected"),
)

abbrev condition_of : String → ℕ → Bool × String × String → Condition
condition_of kind generation (holds, reason, message) = record {
  kind = kind;
  status = holds;
  observed_generation = generation;
  reason = reason;
  message = message;
}

-- `set_condition` is apimeta.SetStatusCondition on the list of the conditions.
module _ {F : Type 0} (set_condition : List Condition → Condition → List Condition) where
  -- setStatusConditions.
  unfoldable pub set_status_conditions : AgentDeployment F → AgentDeployment F
  set_status_conditions a =
      let (available, progressing, degraded) = conditions_of a.status.phase a.status in
      let with_available =
        set_condition a.status.conditions (condition_of "Available" a.generation available) in
      let with_progressing =
        set_condition with_available (condition_of "Progressing" a.generation progressing) in
      record a {
        status = record a.status {
          conditions =
              set_condition with_progressing (condition_of "Degraded" a.generation degraded);
        };
      }

  abbrev observe_generation : AgentDeployment F → AgentDeployment F
  observe_generation a = record a {
    status = record a.status { observed_generation = a.generation };
  }

  -- updateStatus.
  unfoldable pub update_agent_status : Env F → String → Exec F (Unit {0})
  update_agent_status env composite_version = do
    a ← gets (λ w. w.agent)
    found ← try (ask Kind.rollout a.name env.get_rollout)
    sync_rollout env composite_version found
    modify observe_generation
    modify set_status_conditions
    b ← gets (λ w. w.agent)
    perform env (Call.update_status b.status)

module _ {F : Type 0} where
  unfoldable pub phase_event : AgentDeploymentPhase → AgentDeployment F → Exec F (Unit {0})
  phase_event AgentDeploymentPhase.stable a =
      emit normal "RolloutCompleted"
        ("agent reached Stable phase at version " <> a.status.stable_version)
  phase_event AgentDeploymentPhase.progressing a =
      emit normal "RolloutProgressing"
        ("canary rollout started, current weight " <> decimal a.status.canary_weight <> "%")
  phase_event AgentDeploymentPhase.degraded a =
      emit warning "RolloutDegraded" "canary analysis failed; agent entered Degraded phase"
  phase_event AgentDeploymentPhase.rolling_back a =
      emit warning "RollingBack" "canary rejected; rolling back to previous stable version"
  phase_event _ a = pure tt

  -- emitPhaseEvent.
  unfoldable pub emit_phase_event : Exec F (Unit {0})
  emit_phase_event = do a ← gets (λ w. w.agent); phase_event a.status.phase a
