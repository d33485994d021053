-- ===== src/Deletion.antt =====
-- handleDeletion of internal/controller/agentdeployment_controller.go.
pub mod Order
use agentroll.Prelude.{
  Bool, true, false, not, String, List, [], ◌∷◌, any_of, filter_by, ◌==◌, if◌then◌else◌,
}
use agentroll.Api.{AgentDeployment}
use agentroll.Kube.{
  Env, Call, delete_rollout, update_finalizers, Result, ok, err, is_not_found, wrap, Kind,
  RolloutState,
}
use agentroll.Kube.Exec.{
  Exec, pure, raise, gets, try, wrapping, modify, emit, normal, perform, ask, ◌>>=◌, ◌>>◌,
}

abbrev pub agent_deployment_finalizer : String
agent_deployment_finalizer = "agentroll.dev/finalizer"

-- controllerutil.ContainsFinalizer.
abbrev pub contains_finalizer : List String → Bool
contains_finalizer finalizers = any_of (λ f. f == agent_deployment_finalizer) finalizers

-- controllerutil.RemoveFinalizer.
abbrev pub remove_finalizer : List String → List String
remove_finalizer finalizers = filter_by (λ f. not (f == agent_deployment_finalizer)) finalizers

module _ {F : Type 0} (env : Env F) where
  -- A Rollout that is already gone is as good as one that is deleted.
  unfoldable pub settle_deletion : Result (Unit {0}) → Exec F (Unit {0})
  settle_deletion (ok _) = pure tt
  settle_deletion (err e) =
      if is_not_found e then pure tt else raise (wrap "failed to delete Rollout during cleanup" e)

  unfoldable pub delete_found : String → Result RolloutState → Exec F (Unit {0})
  delete_found name (ok _) = do
    deleted ← try (perform env (delete_rollout name))
    settle_deletion deleted
  delete_found name (err e) =
      if is_not_found e then pure tt else raise (wrap "failed to get Rollout during cleanup" e)

  unfoldable pub finalize : Exec F (Unit {0})
  finalize = do
    modify (λ a. record a { finalizers = remove_finalizer a.finalizers })
    a ← gets (λ w. w.agent)
    wrapping "failed to remove finalizer" (perform env (update_finalizers a.finalizers))
    emit normal "Finalized"
        "owned Rollout deleted and finalizer removed; AgentDeployment deletion proceeding"

  -- handleDeletion.
  unfoldable pub handle_deletion : Exec F (Unit {0})
  handle_deletion = do
    a ← gets (λ w. w.agent)
    if contains_finalizer a.finalizers
        then (do
          found ← try (ask Kind.rollout a.name env.get_rollout)
          delete_found a.name found
          finalize)
        else pure tt
