-- ===== src/Rollout/Pod.antt =====
-- buildPodSpec and resourcesOrDefault of internal/controller/agentdeployment_controller.go.
use agentroll.Prelude.{
  ℕ, true, String, ◌<>◌, Option, none, some, List, [], ◌∷◌, ◌++◌, Dict, is_set, or_default,
  if◌then◌else◌,
}
use agentroll.Api.{
  AgentDeployment, EnvVar, EnvSource, ContainerPort, ResourceRequirements, OTelSpec, EvolutionSpec,
  ObservabilitySpec, MemorySpec, MemoryBackendSpec,
}
use agentroll.Kube.{Container, PodSpec}
use agentroll.Experiment.Prompt.{variant_config_map_name}

abbrev pub var_of : String → String → EnvVar
var_of name value = record { name = name; value = EnvSource.literal value }

-- resourcesOrDefault.
unfoldable pub resources_or_default : Option ResourceRequirements → ResourceRequirements
resources_or_default none = record { requests = []; limits = [] }
resources_or_default (some r) = r

-- `spec.Observability.OpenTelemetry`, if it is there and enabled.
unfoldable pub otel_of : Option ObservabilitySpec → Option OTelSpec
otel_of none = none
otel_of (some obs) = elim obs.open_telemetry [
  | none ↦ none
  | some otel ↦ if otel.enabled then some otel else none
]

abbrev otel_port : ℕ → String → ContainerPort
otel_port n name = record { name = name; container_port = n; protocol = "TCP" }

-- The OTel Collector sidecar.
unfoldable pub otel_sidecar : OTelSpec → Container
otel_sidecar otel = record {
  name = "otel-sidecar";
  image = "otel/opentelemetry-collector-contrib:0.98.0";
  env =
      var_of "OTEL_EXPORT_ENDPOINT"
        (or_default otel.collector_endpoint "http://otel-collector.monitoring:4317")
      ∷ [];
  ports =
      otel_port 4317 "otlp-grpc"
      ∷ otel_port 4318 "otlp-http"
      ∷ otel_port 8888 "metrics"
      ∷ otel_port 8889 "metrics-prom"
      ∷ [];
  command = [];
  args = "--config=/etc/otelcol/config.yaml" ∷ [];
  resources = record {
    requests = ("cpu", "10m") ∷ ("memory", "64Mi") ∷ [];
    limits = ("cpu", "100m") ∷ ("memory", "128Mi") ∷ [];
  };
  volume_mounts = ("otel-config", "/etc/otelcol") ∷ [];
}

unfoldable pub otel_env : Option OTelSpec → List EnvVar
otel_env none = []
otel_env (some _) = var_of "OTEL_EXPORTER_OTLP_ENDPOINT" "http://localhost:4318" ∷ []

unfoldable pub sidecars : Option OTelSpec → List Container
sidecars none = []
sidecars (some otel) = otel_sidecar otel ∷ []

unfoldable pub otel_volumes : String → Option OTelSpec → Dict String
otel_volumes agent_name none = []
otel_volumes agent_name (some _) = ("otel-config", agent_name <> "-otel-config") ∷ []

-- The ConfigMap that SYSTEM_PROMPT comes from; "" for none. A running experiment comes first.
unfoldable pub prompt_source : String → Option EvolutionSpec → String
prompt_source agent_name none = ""
prompt_source agent_name (some ev) =
    if is_set ev.prompt_experiment then variant_config_map_name agent_name else ev.prompt_config_map

unfoldable pub prompt_env : String → List EnvVar
prompt_env source =
    if is_set source
    then record {
      name = "SYSTEM_PROMPT";
      value = EnvSource.config_map_key source "system_prompt" true;
    }
      ∷ []
    else []

-- `spec.Memory.Backend`, if there is one.
abbrev pub backend_of : Option MemorySpec → Option MemoryBackendSpec
backend_of none = none
backend_of (some memory) = memory.backend

unfoldable pub memory_env : Option MemoryBackendSpec → List EnvVar
memory_env none = []
memory_env (some backend) =
    var_of "MEM0_API_URL" backend.endpoint
    ∷ (if is_set backend.session_id then var_of "AGENT_SESSION_ID" backend.session_id ∷ [] else [])

module _ {F : Type 0} where
  -- buildPodSpec.
  unfoldable pub build_pod_spec : AgentDeployment F → PodSpec
  build_pod_spec a =
      let c = a.spec.container in
      let otel = otel_of a.spec.observability in
      record {
        service_account_name = a.spec.service_account_name;
        containers =
            record {
              name = "agent";
              image = c.image;
              env =
                  c.env
                  ++ (otel_env otel
                      ++ (prompt_env (prompt_source a.name a.spec.evolution)
                          ++ memory_env (backend_of a.spec.memory)));
              ports = c.ports;
              command = c.command;
              args = c.args;
              resources = resources_or_default c.resources;
              volume_mounts = [];
            }
            ∷ sidecars otel;
        volumes = otel_volumes a.name otel;
      }
