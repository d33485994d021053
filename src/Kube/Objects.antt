-- ===== src/Kube/Objects.antt =====
-- The objects of other APIs (core/v1, apps/v1, argoproj.io/v1alpha1), with the fields that the
-- controller reads or writes.
use agentroll.Prelude.{ℕ, String, Option, List, [], ◌∷◌, Dict}
use agentroll.Api.{EnvVar, ContainerPort, ResourceRequirements}

-- argoproj.io RolloutPhase; `other` is any other text, the empty one included.
pub data RolloutPhase : Type 0 where
  healthy progressing paused degraded other : RolloutPhase

-- The status of an Argo Rollout. `canary_weight` is `none` when `status.canary.weights` is nil.
pub record RolloutState : Type 0 where
  pub phase : RolloutPhase
  pub current_pod_hash : String
  pub stable_rs : String
  pub canary_weight : Option ℕ

pub data CanaryStep : Type 0 where
  set_weight : ℕ → CanaryStep
  pause : String → CanaryStep
  -- the template's name and the arguments of the run
  analysis : String → Dict String → CanaryStep

pub data ArgoStrategy : Type 0 where
  blue_green : ArgoStrategy
  canary : List CanaryStep → ArgoStrategy

pub record Container : Type 0 where
  pub name : String
  pub image : String
  pub env : List EnvVar
  pub ports : List ContainerPort
  pub command : List String
  pub args : List String
  pub resources : ResourceRequirements
  -- the names and paths of the read-only mounts
  pub volume_mounts : Dict String

pub record PodSpec : Type 0 where
  pub service_account_name : String
  pub containers : List Container
  -- the volumes' names, with the ConfigMap that each holds
  pub volumes : Dict String

pub record ArgoRollout : Type 0 where
  pub name : String
  pub replicas : ℕ
  pub labels : Dict String
  pub selector : Dict String
  pub pod_labels : Dict String
  pub pod : PodSpec
  pub strategy : ArgoStrategy

-- An argument that an AnalysisTemplate declares, with its default.
pub record TemplateArgument : Type 0 where
  pub name : String
  pub value : Option String

-- The one Job metric of a template: what the templates of this program have.
pub record TemplateSpec : Type 0 where
  pub args : List TemplateArgument
  pub metric : String
  pub interval : String
  pub count : Option ℕ
  pub failure_limit : Option ℕ
  pub container : String
  pub image : String
  pub env : List EnvVar

pub record AnalysisTemplate : Type 0 where
  pub name : String
  pub labels : Dict String
  pub spec : TemplateSpec

-- `resource_version` is empty on an object that no server has seen.
pub record ConfigMap : Type 0 where
  pub name : String
  pub resource_version : String
  pub labels : Dict String
  pub entries : Dict String

pub record Secret : Type 0 where
  pub name : String
  pub labels : Dict String
  pub entries : Dict String

pub record ServicePort : Type 0 where
  pub name : String
  pub port : ℕ
  pub target_port : ℕ
  pub protocol : String

pub record Service : Type 0 where
  pub name : String
  pub annotations : Dict String
  pub labels : Dict String
  pub selector : Dict String
  pub ports : List ServicePort

pub record OwnerReference : Type 0 where
  pub kind : String
  pub name : String

pub record ReplicaSet : Type 0 where
  pub owners : List OwnerReference
  pub template_labels : Dict String

pub record ServiceAccount : Type 0 where
  pub name : String
  pub labels : Dict String

-- The trigger of a KEDA ScaledObject: its type and its metadata.
pub record KedaTrigger : Type 0 where
  pub kind : String
  pub metadata : Dict String

pub record ScaledObject : Type 0 where
  pub name : String
  pub labels : Dict String
  pub target : String
  pub min_replica_count : ℕ
  pub max_replica_count : ℕ
  pub trigger : KedaTrigger

-- argoproj.io AnalysisPhase, with the text that `%s` prints; `other_run` is any other.
pub data AnalysisPhase : Type 0 where
  successful failed_run : AnalysisPhase
  other_run : String → AnalysisPhase

pub record Measurement : Type 0 where
  pub value : String
  pub message : String

pub record MetricResult : Type 0 where
  pub name : String
  pub phase : AnalysisPhase
  pub measurements : List Measurement

pub record AnalysisRun : Type 0 where
  pub name : String
  pub created_at : ℕ
  pub phase : AnalysisPhase
  pub metric_results : List MetricResult

-- `port := int32(8080); if len(svc.Spec.Ports) > 0 { port = svc.Spec.Ports[0].Port }`.
unfoldable pub service_port_or_8080 : List ServicePort → ℕ
service_port_or_8080 [] = 8080
service_port_or_8080 (p ∷ _) = p.port
