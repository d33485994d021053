-- ===== src/Reconcile/Tools.antt =====
-- The Rollout waits for the tools.
use std.Path.{subst}
use agentroll.Prelude.{
  ◌≡◌, refl, ◌∙◌, false, is_set, inl, inr, sym, ap, String, Option, none, some, List, [], ◌∷◌,
}
use agentroll.Float.{Float64}
use agentroll.Api.{AgentDeployment, ToolDependency, OTelSpec}
use agentroll.Kube.{Env, Call, Err, read, apply_config_map, Result, ok, err, Service}
use agentroll.Kube.Exec.{Exec, World, ◌>>=◌, ◌>>◌}
use agentroll.Kube.Exec.Sends.{Sends, Sent, Sent-trans, Sends-bind, Sends-try, sends_rules}
use agentroll.Kube.Exec.Runs.{Result-cases, onward, stopped}
use agentroll.Kube.Exec.Keeps.{Keeps, keeps_rules}
use agentroll.Kube.Exec.Atomic.{unchanged}
use agentroll.Dependencies.Unmet.{IsAmong, Unmet, reconcile_tool_dependencies-err}
use agentroll.Experiment.Tool.{active_tool_experiment, tool_experiment_of}
use agentroll.Dependencies.Tools.{
  settle_endpoint, resolve_tool, resolve_declared, resolve_additional, reconcile_tool_dependencies,
}
use agentroll.Rollout.Resources.{reconcile_rollout, reconcile_service, reconcile_service_account}
use agentroll.Rollout.Scaling.{reconcile_scaled_object}
use agentroll.Rollout.Telemetry.{configure_otel, reconcile_otel_config}
use agentroll.Reconcile.{settle_fatal, fatal, reconcile_resources}

-- A read, or the write of a ConfigMap.
abbrev pub Preliminary : {F : Type 0} → Call F → Type 0
Preliminary (read kind name) = Unit
Preliminary (apply_config_map cm) = Unit
Preliminary _ = ⊥

module _ {F : Type 0} (env : Env F) where
  abbrev Q : Call F → Type 0
  Q = Preliminary

  settle-Q : (tool : String) (r : Result (Option String)) → Sends Q (settle_endpoint env tool r)
  unfolding settle_endpoint
  settle-Q tool (ok none) = search sends_rules
  settle-Q tool (ok (some endpoint)) = search sends_rules
  settle-Q tool (err e) = search sends_rules

  resolve-Q :
      (endpoint_of : String → ToolDependency → Result Service → Result (Option String))
      (tool : ToolDependency)
      → Sends Q (resolve_tool env endpoint_of tool)
  unfolding resolve_tool
  resolve-Q endpoint_of tool = search (sends_rules, settle-Q) depth 12

  declared-Q :
      (removed : List String) (tools : List ToolDependency)
      → Sends Q (resolve_declared env removed tools)
  unfolding resolve_declared
  declared-Q removed [] = search sends_rules
  declared-Q removed (tool ∷ tools) =
      Sends-bind _ _ (search (sends_rules, resolve-Q) depth 6) (λ _. declared-Q removed tools)

  additional-Q : (tools : List ToolDependency) → Sends Q (resolve_additional env tools)
  unfolding resolve_additional
  additional-Q [] = search sends_rules
  additional-Q (tool ∷ tools) = Sends-bind _ _ (resolve-Q _ tool) (λ _. additional-Q tools)

  active-Q : ⦃fl : Float64 F⦄ → Sends Q (active_tool_experiment env)
  unfolding active_tool_experiment
  active-Q = search sends_rules depth 12

  tools-Q : ⦃fl : Float64 F⦄ → Sends Q (reconcile_tool_dependencies env)
  unfolding reconcile_tool_dependencies
  tools-Q = search (sends_rules, active-Q, declared-Q, additional-Q) depth 14

  configure-Q : (a : AgentDeployment F) (o : Option OTelSpec) → Sends Q (configure_otel env a o)
  unfolding configure_otel
  configure-Q a none = search sends_rules
  configure-Q a (some otel) = search sends_rules depth 8

  otel-Q : Sends Q (reconcile_otel_config env)
  unfolding reconcile_otel_config
  otel-Q = search (sends_rules, configure-Q) depth 8

module _ {F : Type 0} where
  settle_fatal-Q :
      (reason text : String) (r : Result (Unit {0}))
      → Sends {F = F} Preliminary (settle_fatal reason text r)
  unfolding settle_fatal
  settle_fatal-Q reason text (ok _) = search sends_rules
  settle_fatal-Q reason text (err e) = search sends_rules depth 8

  fatal-Q :
      (reason text : String) (step : Exec F (Unit {0}))
      → Sends Preliminary step
      → Sends Preliminary (fatal reason text step)
  unfolding fatal
  fatal-Q reason text step s = Sends-bind _ _ (Sends-try _ s) (λ r. settle_fatal-Q reason text r)

  -- A fatal step that fails ends with its error.
  fatal-err :
      (reason text : String) (step : Exec F (Unit {0})) (w : World F) (e : Err)
      → (step w).0 ≡ err e
      → (fatal reason text step w).0 ≡ err e
  unfolding fatal settle_fatal ◌>>=◌
  fatal-err reason text step w e h = rw h refl

  -- A fatal step that does not fail leaves the world of the step.
  fatal-ok :
      (reason text : String) (step : Exec F (Unit {0})) (w : World F)
      → (step w).0 ≡ ok tt
      → fatal reason text step w ≡ (ok tt, (step w).1)
  unfolding fatal settle_fatal ◌>>=◌
  fatal-ok reason text step w h = rw h refl

-- When the pass over the tools ends in an error, so does the pass over the resources.
stopped_by_tools :
    {F : Type 0} ⦃fl : Float64 F⦄ (env : Env F) (version : String) (w : World F) (e : Err)
    → (reconcile_otel_config env w).0 ≡ ok tt
    → (reconcile_tool_dependencies env (reconcile_otel_config env w).1).0 ≡ err e
    → ((reconcile_resources env version w).0 ≡ err e)
      × Sent Preliminary w (reconcile_resources env version w).1
unfolding reconcile_resources
stopped_by_tools env version w e configured unmet =
    let v = (reconcile_otel_config env w).1 in
    let tools =
      fatal "ToolConstraintFailed" "MCP tool dependency error" (reconcile_tool_dependencies env) in
    let more : Exec _ (Unit {0}) = do
      fatal "ReconcileError" "failed to reconcile ServiceAccount" (reconcile_service_account env)
      fatal "ReconcileError" "failed to reconcile Rollout" (reconcile_rollout env version)
      fatal "ReconcileError" "failed to reconcile Service" (reconcile_service env)
      fatal "ReconcileError" "failed to reconcile ScaledObject" (reconcile_scaled_object env)
    in let otel =
        fatal "ReconcileError" "failed to reconcile OTel ConfigMap" (reconcile_otel_config env) in
      let first = fatal-ok _ _ (reconcile_otel_config env) w configured in
      let run : reconcile_resources env version w ≡ (err e, (tools v).1) =
        onward otel (λ _. tools >> more) w tt (ap (λ o. o.0) first)
        ∙ ap (λ o. (tools >> more) o.1) first
        ∙ stopped tools (λ _. more) v e
            (fatal-err _ _ (reconcile_tool_dependencies env) v e unmet) in
      (
        ap (λ o. o.0) run,
        subst (λ o. Sent Preliminary w o.1) (sym run)
            (Sent-trans w v (tools v).1 ((otel-Q env).at w)
              ((fatal-Q _ _ (reconcile_tool_dependencies env) (tools-Q env)).at v)),
      )

module _ {F : Type 0} ⦃fl : Float64 F⦄ (env : Env F) where
  configure-same :
      (a : AgentDeployment F) (o : Option OTelSpec) → Keeps unchanged (configure_otel env a o)
  unfolding configure_otel
  configure-same a none = search keeps_rules
  configure-same a (some otel) = search keeps_rules depth 8

  otel-same : Keeps unchanged (reconcile_otel_config env)
  unfolding reconcile_otel_config
  otel-same = search (keeps_rules, configure-same) depth 8

  stopped_by_otel :
      (version : String) (w : World F) (e : Err)
      → (reconcile_otel_config env w).0 ≡ err e
      → ((reconcile_resources env version w).0 ≡ err e)
        × Sent Preliminary w (reconcile_resources env version w).1
  unfolding reconcile_resources
  stopped_by_otel version w e h =
      let otel =
        fatal "ReconcileError" "failed to reconcile OTel ConfigMap" (reconcile_otel_config env) in
      let run = stopped otel _ w e (fatal-err _ _ (reconcile_otel_config env) w e h) in
      (
        ap (λ o. o.0) run,
        subst (λ o. Sent Preliminary w o.1) (sym run)
            ((fatal-Q _ _ (reconcile_otel_config env) (otel-Q env)).at w),
      )

  -- A declared tool without an endpoint of its own holds the Rollout back when it requires a version and its
  -- Service bears one that does not meet the constraint, or cannot be found: the pass over the resources
  -- ends in an error, and it has read, and written a ConfigMap at most. No experiment on the tools is
  -- named, and the answers about Services do not change during the pass.
  pub reconcile_resources-guarded :
      (version : String) (w : World F) (tool : ToolDependency) (services : String → Result Service)
      → ((log : List (Call F)) (name : String) → env.get_service log name ≡ services name)
      → is_set (tool_experiment_of w.agent.spec.evolution) ≡ false
      → IsAmong tool w.agent.spec.agent_meta.tool_dependencies
      → is_set tool.endpoint ≡ false
      → Unmet env tool (services tool.name)
      → ((e : Err) × ((reconcile_resources env version w).0 ≡ err e))
        × Sent Preliminary w (reconcile_resources env version w).1
  reconcile_resources-guarded version w tool services steady none_on among bare unmet =
      elim (Result-cases (reconcile_otel_config env w).0) [
        | inl configured ↦
            let v = (reconcile_otel_config env w).1 in
            let same : v.agent ≡ w.agent = otel-same.at w in
            let (e, h) =
              reconcile_tool_dependencies-err env services steady tool bare unmet v
                (subst (λ a. is_set (tool_experiment_of a.spec.evolution) ≡ false) (sym same)
                  none_on)
                (subst (λ a. IsAmong tool a.spec.agent_meta.tool_dependencies) (sym same) among) in
            let (ends, sent) = stopped_by_tools env version w e configured h in ((e, ends), sent)
        | inr (e, h) ↦ let (ends, sent) = stopped_by_otel version w e h in ((e, ends), sent)
      ]
