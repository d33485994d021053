-- ===== src/Reconcile/Watch.antt =====
-- What wakes the reconciler: promptVariantToAgentRequests and the watches of SetupWithManager in
-- internal/controller/agentdeployment_controller.go.
use agentroll.Prelude.{String, Option, none, some, List, [], ◌∷◌, is_set, if◌then◌else◌}
use agentroll.Api.{PromptVariant}

-- types.NamespacedName, as the key of a ctrl.Request.
pub record NamespacedName : Type 0 where
  pub namespace : String
  pub name : String

module _ {F : Type 0} where
  unfoldable pub prompt_variant_to_agent_requests : PromptVariant F → List NamespacedName
  prompt_variant_to_agent_requests pv =
      if is_set pv.spec.agent_deployment_ref
      then record { namespace = pv.namespace; name = pv.spec.agent_deployment_ref } ∷ []
      else []

-- A change that the watches see: of an AgentDeployment; of a Rollout or a Service, with the
-- AgentDeployment that controls it, if one does; of a PromptVariant.
pub data WatchEvent (F : Type 0) : Type 0 where
  of_agent : NamespacedName → WatchEvent F
  of_owned : Option NamespacedName → WatchEvent F
  of_variant : PromptVariant F → WatchEvent F

abbrev owner_requests : Option NamespacedName → List NamespacedName
owner_requests none = []
owner_requests (some owner) = owner ∷ []

-- The requests that the watches of SetupWithManager make of a change.
unfoldable pub requests : {F : Type 0} → WatchEvent F → List NamespacedName
requests (of_agent key) = key ∷ []
requests (of_owned owner) = owner_requests owner
requests (of_variant pv) = prompt_variant_to_agent_requests pv
