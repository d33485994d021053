-- ===== src/Tests/Admissions.antt =====
-- The theorems on the webhook and on the status, on the sample cluster.
use agentroll.Prelude.{◌≡◌, ◌↔◌, refl, none, List, [], ◌∷◌}
use agentroll.Api.{AgentDeploymentPhase, Condition}
use agentroll.Float.Milli.{ℤ, milli}
use agentroll.Kube.{Env, ok, RolloutPhase, RolloutState, ReplicaSet}
use agentroll.Webhook.{
  validate_agent_deployment_spec, validate_create, validate_update, validate_delete,
  validate_cost_spike, validate_scaling, validate_tool_dependencies, validate_depends_on,
  check_threshold, check_percentage, check_scaling, check_versions, check_version,
  check_dependencies,
}
use agentroll.Webhook.Effect.{LooksElsewhere, ScalesProperly, Attempted, validate_create-reconcile}
use agentroll.Dependencies.Agents.{check_agent_dependencies}
use agentroll.Rollout.Scaling.{reconcile_scaled_object}
use agentroll.Kube.Exec.Sends.{Sent}
use agentroll.Prelude.{inl, some, has_percent}
use agentroll.Kube.Exec.{World}
use agentroll.Api.{ScalingSpec}
use agentroll.Webhook.Admission.{SpecIsValid, validate_update_lem}
use agentroll.Status.{set_status_conditions, update_agent_status}
use agentroll.Status.Conditions.{Says, InFlight, Failing, set_status_conditions_lem}
use agentroll.Status.Stable.{Kept, Settles, update_agent_status-Kept, update_agent_status-Settles}
use agentroll.Tests.Samples.{agent, spec, world, cluster}

validate_update_lem_example :
    ((validate_create ℤ (λ text. none) agent ≡ []) ↔ SpecIsValid ℤ (λ text. none) "agent" spec)
    × ((validate_update ℤ (λ text. none) agent agent ≡ [])
        ↔ SpecIsValid ℤ (λ text. none) "agent" spec)
    × (validate_delete ℤ (λ text. none) agent ≡ [])
validate_update_lem_example = validate_update_lem (λ text. none) agent agent

-- An agent that is scaled on the depth of a queue.
abbrev scaling : ScalingSpec
scaling = record {
  min_replicas = 1;
  max_replicas = 3;
  metric = "queue-depth";
  target_value = 5;
  queue_ref = some (record { provider = "redis"; address = "redis:6379"; queue_name = "jobs" });
}

abbrev queued : World ℤ
queued = record world { agent = record agent { spec = record spec { scaling = some scaling } } }

validate_create-reconcile_example :
    Sent (LooksElsewhere "agent") queued (check_agent_dependencies cluster queued).1
    × Sent (ScalesProperly "agent") queued (reconcile_scaled_object cluster queued).1
    × Attempted cluster (some scaling) queued (reconcile_scaled_object cluster queued)
unfolding validate_create validate_agent_deployment_spec validate_cost_spike validate_scaling
    validate_tool_dependencies validate_depends_on check_threshold check_percentage check_scaling
    check_versions check_version check_dependencies has_percent
validate_create-reconcile_example =
    validate_create-reconcile (λ text. none) cluster queued (inl refl)

-- The newest condition of a kind stands first.
abbrev prepend : List Condition → Condition → List Condition
prepend cs c = c ∷ cs

set_status_conditions_lem_example :
    let cs = (set_status_conditions prepend agent).status.conditions in
    Says cs "Available" 1 (AgentDeploymentPhase.stable ≡ AgentDeploymentPhase.stable)
    × Says cs "Progressing" 1 (InFlight AgentDeploymentPhase.stable)
    × Says cs "Degraded" 1 (Failing AgentDeploymentPhase.stable)
set_status_conditions_lem_example = set_status_conditions_lem prepend (λ cs c kind. refl) agent

abbrev in_flight : RolloutState
in_flight = record {
  phase = RolloutPhase.paused;
  current_pod_hash = "b";
  stable_rs = "a";
  canary_weight = none;
}

abbrev stable_set : ReplicaSet
stable_set = record {
  owners = record { kind = "Rollout"; name = "agent" } ∷ [];
  template_labels = ("agentroll.dev/composite-version", "p0.m1.v2") ∷ [];
}

abbrev flying : Env ℤ
flying = record cluster {
  get_rollout = λ log name. ok in_flight;
  list_replica_sets = λ log hash. ok (stable_set ∷ []);
}

update_agent_status-Kept_example :
    Kept "agent"
      (ok (stable_set ∷ []))
      "p0.m1"
      (update_agent_status prepend flying "p1.m1.v3" world).1.agent.status.stable_version
update_agent_status-Kept_example =
    update_agent_status-Kept prepend flying world "p1.m1.v3" in_flight refl refl refl

update_agent_status-Settles_example :
    Settles agent (update_agent_status prepend flying "p1.m1.v3" world).1.agent
update_agent_status-Settles_example = update_agent_status-Settles prepend flying world "p1.m1.v3"
