-- ===== src/Dependencies/Unmet.antt =====
-- When the pass over the tools fails: on the constraint of a tool's version.
use std.Path.{subst}
use agentroll.Prelude.{
  ◌≡◌, refl, sym, ◌∙◌, ap, ◌⊎◌, inl, inr, true, false, String, List, [], ◌∷◌, is_set, is_empty,
  Bool-cases, any_of,
}
use agentroll.Float.{Float64}
use agentroll.Api.{ToolDependency}
use agentroll.Kube.{Env, Call, Err, Result, ok, err, is_not_found, Service}
use agentroll.Kube.Exec.{Exec, World, raise, ◌>>=◌, ◌>>◌}
use agentroll.Kube.Exec.Runs.{Result-cases, onward, stopped}
use agentroll.Experiment.Tool.{active_tool_experiment, tool_experiment_of}
use agentroll.Dependencies.Tools.{
  validate_semver_constraint, deployed_version, check_tool_version, declared_endpoint,
  settle_endpoint, resolve_tool, resolve_declared, reconcile_tool_dependencies,
}

abbrev pub IsAmong : ToolDependency → List ToolDependency → Type 0
IsAmong tool [] = ⊥
IsAmong tool (t ∷ tools) = (t ≡ tool) ⊎ IsAmong tool tools

module _ {F : Type 0} (env : Env F) where
  -- The tool requires a version, and the Service that was looked up bears one that does not meet the
  -- constraint, where both parse; or the look-up has failed, as it does when there is no Service.
  abbrev pub Unmet : ToolDependency → Result Service → Type 0
  Unmet tool (ok svc) =
      (is_set tool.version ≡ true)
      × (is_set (deployed_version env svc) ≡ true)
      × (env.constraint_ok tool.version ≡ true)
      × (env.version_ok (deployed_version env svc) ≡ true)
      × (env.check_version tool.version (deployed_version env svc) ≡ false)
  Unmet tool (err e) = is_set tool.version ≡ true

  check_tool_version-Unmet :
      (tool : ToolDependency) (svc : Service)
      → Unmet tool (ok svc)
      → (e : Err) × (check_tool_version env tool svc ≡ err e)
  unfolding check_tool_version validate_semver_constraint
  check_tool_version-Unmet tool svc (set, bears, parses, reads, unmet) =
      rw (set, bears, parses, reads, unmet) (_, refl)

  declared-Unmet :
      (namespace : String) (tool : ToolDependency) (found : Result Service)
      → Unmet tool found
      → (e : Err) × (declared_endpoint env namespace tool found ≡ err e)
  unfolding declared_endpoint
  declared-Unmet namespace tool (ok svc) unmet =
      let (e, h) = check_tool_version-Unmet tool svc unmet in rw (h, declared_endpoint) (e, refl)
  declared-Unmet namespace tool (err e) set = elim (Bool-cases (is_not_found e)) [
    | inl gone ↦ rw (gone, set) (_, refl)
    | inr other ↦ rw other (_, refl)
  ]

  resolve-Unmet :
      (tool : ToolDependency) (w : World F)
      → is_set tool.endpoint ≡ false
      → Unmet tool (env.get_service w.log tool.name)
      → (e : Err) × ((resolve_tool env (declared_endpoint env) tool w).0 ≡ err e)
  unfolding resolve_tool settle_endpoint raise ◌>>=◌
  resolve-Unmet tool w bare unmet =
      let (e, failed) = declared-Unmet w.agent.namespace tool _ unmet in rw (bare, failed) (_, refl)

module _ {F : Type 0} (env : Env F) (services : String → Result Service)
    (steady : (log : List (Call F)) (name : String) → env.get_service log name ≡ services name)
    (tool : ToolDependency) (bare : is_set tool.endpoint ≡ false)
    (unmet : Unmet env tool (services tool.name)) where
  first_or_later :
      (m n : Exec F (Unit {0})) (w : World F)
      → ((e : Err) × ((m w).0 ≡ err e)) ⊎ ((v : World F) → (e : Err) × ((n v).0 ≡ err e))
      → (e : Err) × (((m >> n) w).0 ≡ err e)
  first_or_later m n w (inl (e, h)) = (e, ap (λ o. o.0) (stopped m (λ _. n) w e h))
  first_or_later m n w (inr later) = elim (Result-cases (m w).0) [
    | inl done ↦ let (e, h) = later (m w).1 in (e, ap (λ o. o.0) (onward m (λ _. n) w tt done) ∙ h)
    | inr (e, h) ↦ (e, ap (λ o. o.0) (stopped m (λ _. n) w e h))
  ]

  declared_fails :
      (tools : List ToolDependency) (w : World F)
      → IsAmong tool tools
      → (e : Err) × ((resolve_declared env [] tools w).0 ≡ err e)
  unfolding resolve_declared any_of
  declared_fails [] w among = absurd among
  declared_fails (t ∷ tools) w (inl same) = first_or_later _ _ w (
      inl (
        resolve-Unmet env t w (subst (λ s. is_set s.endpoint ≡ false) (sym same) bare) (
          subst (λ s. Unmet env s (env.get_service w.log s.name)) (sym same)
            (subst (λ r. Unmet env tool r) (sym (steady w.log tool.name)) unmet))))
  declared_fails (t ∷ tools) w (inr among) =
      first_or_later _ _ w (inr (λ v. declared_fails tools v among))

  some_tools : (tools : List ToolDependency) → IsAmong tool tools → is_empty tools ≡ false
  some_tools [] among = absurd among
  some_tools (t ∷ tools) _ = refl

  -- Without an experiment on the tools, the pass over them fails on a declared tool that is not met.
  pub reconcile_tool_dependencies-err :
      ⦃fl : Float64 F⦄
      → (w : World F) → is_set (tool_experiment_of w.agent.spec.evolution) ≡ false
      → IsAmong tool w.agent.spec.agent_meta.tool_dependencies
      → (e : Err) × ((reconcile_tool_dependencies env w).0 ≡ err e)
  unfolding reconcile_tool_dependencies active_tool_experiment ◌>>=◌
  reconcile_tool_dependencies-err w none_on among =
      let (e, h) = declared_fails w.agent.spec.agent_meta.tool_dependencies w among in
      rw (some_tools w.agent.spec.agent_meta.tool_dependencies among, none_on, h) (e, refl)
