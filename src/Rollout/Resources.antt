-- ===== src/Rollout/Resources.antt =====
-- reconcileRollout, reconcileService, toServicePorts and reconcileServiceAccount of
-- internal/controller/agentdeployment_controller.go. An `apply_…` call carries the fields that the code
-- sets; the owner reference, which always names the agent, is left out.
use agentroll.Prelude.{
  ℕ, String, Option, none, some, List, [], ◌∷◌, map, is_empty, is_set, if◌then◌else◌,
}
use agentroll.Float.{Float64}
use agentroll.Api.{AgentDeployment, ContainerPort}
use agentroll.Kube.{
  Env, apply_rollout, apply_service, apply_service_account, Service, ServicePort, ServiceAccount,
  ArgoRollout,
}
use agentroll.Kube.Exec.{Exec, pure, gets, modify, wrapping, perform, ◌>>=◌, ◌>>◌}
use agentroll.Rollout.Steps.{build_argo_strategy}
use agentroll.Rollout.Version.{build_labels}
use agentroll.Rollout.Pod.{build_pod_spec}

-- `replicas := int32(1); if spec.Replicas != nil { replicas = *spec.Replicas }`.
abbrev pub replicas_or_1 : Option ℕ → ℕ
replicas_or_1 none = 1
replicas_or_1 (some n) = n

-- toServicePorts.
unfoldable pub to_service_ports : List ContainerPort → List ServicePort
to_service_ports ports =
    map
      (λ cp. record {
        name = cp.name;
        port = cp.container_port;
        target_port = cp.container_port;
        protocol = cp.protocol;
      })
      ports

module _ {F : Type 0} where
  -- The object that the function of CreateOrUpdate leaves.
  unfoldable pub desired_rollout : ⦃fl : Float64 F⦄ → AgentDeployment F → String → ArgoRollout
  desired_rollout a composite_version = record {
    name = a.name;
    replicas = replicas_or_1 a.spec.replicas;
    labels = build_labels a composite_version;
    selector = ("app.kubernetes.io/name", a.name) ∷ [];
    pod_labels = build_labels a composite_version;
    pod = build_pod_spec a;
    strategy = build_argo_strategy a;
  }

  unfoldable pub desired_service : AgentDeployment F → Service
  desired_service a = record {
    name = a.name;
    annotations = [];
    labels =
        ("app.kubernetes.io/name", a.name) ∷ ("app.kubernetes.io/managed-by", "agentroll") ∷ [];
    selector = ("app.kubernetes.io/name", a.name) ∷ [];
    ports = to_service_ports a.spec.container.ports;
  }

  unfoldable pub desired_service_account : AgentDeployment F → ServiceAccount
  desired_service_account a = record {
    name = a.name;
    labels =
        ("app.kubernetes.io/name", a.name)
        ∷ ("app.kubernetes.io/managed-by", "agentroll")
        ∷ ("agentroll.dev/component", "agent-service-account")
        ∷ [];
  }

module _ {F : Type 0} (env : Env F) where
  -- reconcileRollout.
  unfoldable pub reconcile_rollout : ⦃fl : Float64 F⦄ → String → Exec F (Unit {0})
  reconcile_rollout composite_version = do
    a ← gets (λ w. w.agent)
    wrapping "failed to reconcile Rollout"
        (perform env (apply_rollout (desired_rollout a composite_version)))

  -- reconcileService.
  unfoldable pub reconcile_service : Exec F (Unit {0})
  reconcile_service = do
    a ← gets (λ w. w.agent)
    if is_empty a.spec.container.ports
        then pure tt
        else wrapping "failed to reconcile Service"
            (perform env (apply_service (desired_service a)))

  -- reconcileServiceAccount: the name goes to the spec in memory, for the pods.
  unfoldable pub reconcile_service_account : Exec F (Unit {0})
  reconcile_service_account = do
    a ← gets (λ w. w.agent)
    if is_set a.spec.service_account_name then pure tt else (do
      wrapping "failed to reconcile ServiceAccount"
          (perform env (apply_service_account (desired_service_account a)))
      modify (λ b. record b { spec = record b.spec { service_account_name = a.name } }))
