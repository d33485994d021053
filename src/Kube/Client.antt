-- ===== src/Kube/Client.antt =====
-- Errors, the calls that leave the controller, and the environment that answers them. The answers
-- are functions of all the calls made before, so that nothing is assumed of the API server: it may
-- answer one question in two ways, refuse any call, or lose what was written.
use agentroll.Prelude.{ℕ, String, ◌<>◌, Bool, true, false, List, Dict}
use agentroll.Api.{
  AgentDeployment, AgentDeploymentStatus, PromptVariant, PromptVariantSpec, ToolExperiment,
  ExperimentStatus,
}
use agentroll.Kube.Objects.{
  RolloutState, ArgoRollout, AnalysisTemplate, ConfigMap, Secret, Service, ReplicaSet,
  ServiceAccount, ScaledObject, AnalysisRun,
}
use agentroll.Kube.Http.{HttpRequest, HttpResponse, Codec}

-- `not_found` is the API server's NotFound, with its text; `wrap` is fmt.Errorf with `%w`; `failed` is
-- fmt.Errorf without it; `api` is an error of the API server, other than NotFound, or of the network.
pub data Err : Type 0 where
  not_found : String → Err
  api : String → Err
  failed : String → Err
  wrap : String → Err → Err

-- errors.IsNotFound looks through `%w`.
abbrev pub is_not_found : Err → Bool
is_not_found (not_found _) = true
is_not_found (wrap _ e) = is_not_found e
is_not_found _ = false

-- `err.Error()`.
abbrev pub error_text : Err → String
error_text (not_found text) = text
error_text (api text) = text
error_text (failed text) = text
error_text (wrap text e) = text <> ": " <> error_text e

pub data Result {ℓ} (A : Type ℓ) : Type ℓ where
  ok : A → Result A
  err : Err → Result A

pub data Kind : Type 0 where
  agent rollout template config_map secret service variant experiment : Kind
  replica_sets analysis_runs : Kind

-- `read` is a Get or a List; `apply_…` is controllerutil.CreateOrUpdate with the object that its
-- function leaves behind; the others are the client's own writes.
pub data Call (F : Type 0) : Type 0 where
  read : Kind → String → Call F
  apply_rollout : ArgoRollout → Call F
  apply_template : AnalysisTemplate → Call F
  apply_config_map : ConfigMap → Call F
  apply_service : Service → Call F
  apply_service_account : ServiceAccount → Call F
  apply_scaled_object : ScaledObject → Call F
  create_config_map : ConfigMap → Call F
  update_config_map : ConfigMap → Call F
  create_secret : Secret → Call F
  update_secret : Secret → Call F
  delete_rollout : String → Call F
  update_finalizers : List String → Call F
  update_status : AgentDeploymentStatus F → Call F
  create_variant : String → Dict String → PromptVariantSpec → Call F
  -- the Patch of spec.evolution.promptExperiment
  patch_prompt_experiment : String → Call F
  -- a request over HTTP
  http : HttpRequest → Call F
  update_variant_status : String → ExperimentStatus F → Call F
  update_experiment_status : String → ExperimentStatus F → Call F

-- Everything outside the controller. `now` is the clock, one reading for a pass.
pub record Env (F : Type 0) : Type 0 where
  pub now : ℕ
  pub write : List (Call F) → Call F → Result (Unit {0})
  pub get_agent : List (Call F) → String → Result (AgentDeployment F)
  pub get_rollout : List (Call F) → String → Result RolloutState
  pub get_template : List (Call F) → String → Result AnalysisTemplate
  pub get_config_map : List (Call F) → String → Result ConfigMap
  pub get_secret : List (Call F) → String → Result Secret
  pub get_service : List (Call F) → String → Result Service
  pub get_variant : List (Call F) → String → Result (PromptVariant F)
  pub get_experiment : List (Call F) → String → Result (ToolExperiment F)
  -- the ReplicaSets with a given rollouts-pod-template-hash
  pub list_replica_sets : List (Call F) → String → Result (List ReplicaSet)
  -- the AnalysisRuns of a Rollout
  pub list_analysis_runs : List (Call F) → String → Result (List AnalysisRun)
  -- the Do of http.DefaultClient or mem0HTTPClient, within the timeout of the call
  pub send : List (Call F) → HttpRequest → Result HttpResponse
  pub codec : Codec F
  -- what the client makes of the agent in memory of the answer to a Patch of it
  pub patched : List (Call F) → AgentDeployment F → AgentDeployment F
  -- semver.NewConstraint and semver.NewVersion succeed; the constraint's Check
  pub constraint_ok : String → Bool
  pub version_ok : String → Bool
  pub check_version : String → String → Bool
  -- the first four bytes of the SHA-256 of a text, in hex
  pub digest_prefix : String → String
