-- ===== src/Rollout/Selection.antt =====
-- The pods of a Rollout, the Service that selects them and the account that they run under.
use agentroll.Prelude.{
  ◌≡◌, refl, ◌∙◌, false, String, ◌==◌, some, [], ◌∷◌, Dict, lookup, lookup-insert, is_set,
  Bool-cases, inl, inr, arith, if◌then◌else◌,
}
use agentroll.Float.{Float64}
use agentroll.Api.{AgentDeployment}
use agentroll.Kube.{Env, ok}
use agentroll.Kube.Exec.{World, ◌>>=◌}
use agentroll.Rollout.Version.{build_labels, insert_if_set}
use agentroll.Rollout.Pod.{build_pod_spec}
use agentroll.Rollout.Resources.{desired_rollout, desired_service, reconcile_service_account}

lookup-insert_if_set :
    (key other value : String) (labels : Dict String)
    → (key == other) ≡ false
    → lookup other (insert_if_set key value labels) ≡ lookup other labels
lookup-insert_if_set key other value labels differs = elim (Bool-cases (is_set value)) [
  | inl given ↦ rw given (lookup-insert key other value labels ∙ rw differs refl)
  | inr empty ↦ rw empty refl
]

-- Every label that the selector asks for is a label of the pods.
abbrev pub Selects : Dict String → Dict String → Type 0
Selects [] labels = Unit
Selects ((key, value) ∷ selector) labels =
    (lookup key labels ≡ some value) × Selects selector labels

module _ {F : Type 0} where
  build_labels_lem :
      (a : AgentDeployment F) (version : String)
      → (lookup "app.kubernetes.io/name" (build_labels a version) ≡ some a.name)
        × (lookup "agentroll.dev/composite-version" (build_labels a version) ≡ some version)
  unfolding build_labels lookup
  build_labels_lem a version =
      let base : Dict String =
        ("app.kubernetes.io/name", a.name)
        ∷ ("app.kubernetes.io/managed-by", "agentroll")
        ∷ ("agentroll.dev/composite-version", version)
        ∷ [] in
      let prompt = a.spec.agent_meta.prompt_version in
      let model = a.spec.agent_meta.model_version in
      let prompted = insert_if_set "agentroll.dev/prompt-version" prompt base in
      let name : String = "app.kubernetes.io/name" in
      let key : String = "agentroll.dev/composite-version" in
      (
        lookup-insert_if_set "agentroll.dev/model-version" name model prompted refl
            ∙ lookup-insert_if_set "agentroll.dev/prompt-version" name prompt base refl,
        lookup-insert_if_set "agentroll.dev/model-version" key model prompted refl
            ∙ lookup-insert_if_set "agentroll.dev/prompt-version" key prompt base refl,
      )

  -- The Rollout of an agent selects its own pods, and so does the Service of the agent; the pods bear
  -- the composite version, under the label that updateStatus reads, and run under the account of the
  -- spec.
  pub desired_rollout-Selects :
      ⦃fl : Float64 F⦄
      → (a : AgentDeployment F) (version : String)
      → let rollout = desired_rollout a version in
        Selects rollout.selector rollout.pod_labels
        × Selects (desired_service a).selector rollout.pod_labels
        × (lookup "agentroll.dev/composite-version" rollout.pod_labels ≡ some version)
        × (rollout.pod.service_account_name ≡ a.spec.service_account_name)
  unfolding desired_rollout desired_service build_pod_spec
  desired_rollout-Selects a version =
      let (named, versioned) = build_labels_lem a version in
      ((named, tt), (named, tt), versioned, refl)

  -- After a pass over the ServiceAccount that returns without an error, the spec in memory names an
  -- account: the one that it named, or else one with the name of the agent.
  reconcile_service_account-named :
      (env : Env F) (w : World F)
      → (reconcile_service_account env w).0 ≡ ok tt
      → let after = (reconcile_service_account env w).1.agent in
        after.spec.service_account_name ≡ (
          if is_set w.agent.spec.service_account_name
          then w.agent.spec.service_account_name
          else w.agent.name)
  unfolding reconcile_service_account ◌>>=◌
  reconcile_service_account-named env w h = ground arith
