-- ===== src/Rollout/Telemetry.antt =====
-- reconcileOTelConfig of internal/controller/agentdeployment_controller.go.
use agentroll.Prelude.{String, ◌<>◌, Option, none, some, [], ◌∷◌, or_default}
use agentroll.Api.{AgentDeployment, OTelSpec}
use agentroll.Kube.{Env, apply_config_map, ConfigMap}
use agentroll.Kube.Exec.{Exec, pure, gets, wrapping, perform, ◌>>=◌}
use agentroll.Rollout.Version.{build_composite_version}
use agentroll.Rollout.Pod.{otel_of}

abbrev attribute : String → String → String
attribute key value =
    "      - key: " <> key <> "\n        value: \"" <> value <> "\"\n        action: upsert\n"

module _ {F : Type 0} (env : Env F) where
  -- The text of the collector's configuration.
  unfoldable pub otel_config : AgentDeployment F → OTelSpec → String
  otel_config a otel =
      "receivers:\n  otlp:\n    protocols:\n      grpc:\n        endpoint: 0.0.0.0:4317\n"
      <> "      http:\n        endpoint: 0.0.0.0:4318\n\n"
      <> "processors:\n  batch:\n    timeout: 5s\n    send_batch_size: 256\n"
      <> "  resource:\n    attributes:\n"
      <> attribute "agentroll.agent.name" a.name
      <> attribute "agentroll.prompt.version" a.spec.agent_meta.prompt_version
      <> attribute "agentroll.model.version" a.spec.agent_meta.model_version
      <> attribute "agentroll.composite.version" (build_composite_version env a)
      <> "\nexporters:\n  otlp:\n    endpoint: \""
      <> or_default otel.collector_endpoint "otel-collector.monitoring:4317"
      <> "\"\n    tls:\n      insecure: true\n  logging:\n    loglevel: info\n"
      <> "  # Prometheus exporter on port 8889 so agent metrics are scrapeable by Prometheus.\n"
      <> "  # The AgentRoll PodMonitor (config/prometheus/agent-pod-monitor.yaml) scrapes this\n"
      <> "  # endpoint and makes metrics available in the AgentRoll Grafana dashboard.\n"
      <> "  prometheus:\n    endpoint: \"0.0.0.0:8889\"\n"
      <> "    resource_to_telemetry_conversion:\n      enabled: true\n\n"
      <> "service:\n  pipelines:\n    traces:\n      receivers: [otlp]\n"
      <> "      processors: [resource, batch]\n      exporters: [otlp, logging]\n"
      <> "    metrics:\n      receivers: [otlp]\n      processors: [resource, batch]\n"
      <> "      exporters: [otlp, logging, prometheus]\n"

  unfoldable pub desired_otel_config : AgentDeployment F → OTelSpec → ConfigMap
  desired_otel_config a otel = record {
    name = a.name <> "-otel-config";
    resource_version = "";
    labels =
        ("app.kubernetes.io/name", a.name)
        ∷ ("app.kubernetes.io/managed-by", "agentroll")
        ∷ ("agentroll.dev/component", "otel-config")
        ∷ [];
    entries = ("config.yaml", otel_config a otel) ∷ [];
  }

  unfoldable pub configure_otel : AgentDeployment F → Option OTelSpec → Exec F (Unit {0})
  configure_otel a none = pure tt
  configure_otel a (some otel) =
      wrapping "failed to reconcile OTel ConfigMap"
        (perform env (apply_config_map (desired_otel_config a otel)))

  -- reconcileOTelConfig.
  unfoldable pub reconcile_otel_config : Exec F (Unit {0})
  reconcile_otel_config = do
    a ← gets (λ w. w.agent)
    configure_otel a (otel_of a.spec.observability)
