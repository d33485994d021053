-- ===== src/Dependencies/Tools.antt =====
-- reconcileToolDependencies and validateSemverConstraint of
-- internal/controller/agentdeployment_controller.go.
use Prim.Native.Nat.{◌-◌}
use Prim.Native.Char.{Char, code}
use Prim.Native.String.{slice}
use agentroll.Prelude.{
  ◌+◌, Bool, not, ◌&&◌, String, ◌<>◌, Option, none, some, List, [], ◌∷◌, ◌++◌, is_set, is_empty,
  text_or_empty, lookup, decimal, quoted, any_of, ◌==◌, leb, if◌then◌else◌,
}
use agentroll.Float.{Float64}
use agentroll.Api.{AgentDeployment, ToolDependency, ToolExperiment, EnvVar, EnvSource}
use agentroll.Kube.{
  Env, Result, ok, err, is_not_found, failed, wrap, Kind, Service, service_port_or_8080,
}
use agentroll.Kube.Exec.{Exec, pure, raise, gets, try, modify, ask, ◌>>=◌, ◌>>◌}
use agentroll.Experiment.Tool.{active_tool_experiment, tool_experiment_of}

-- strings.ToUpper after strings.ReplaceAll(…, "-", "_"), on ASCII texts, as the names of Services are.
unfoldable pub env_char : Char → String
env_char c =
    let n = code c in
    if leb b'a' n && leb n b'z'
    then slice "ABCDEFGHIJKLMNOPQRSTUVWXYZ" (n - b'a') (n - b'a' + 1)
    else if leb 45 n && leb n 45
    then "_"
    else String.◌∷◌ c String.[]

unfoldable pub env_text : String → String
env_text String.[] = ""
env_text (String.◌∷◌ c s) = env_char c <> env_text s

-- "MCP_TOOL_" + … + "_ENDPOINT".
unfoldable pub endpoint_var : String → String
endpoint_var tool = "MCP_TOOL_" <> env_text tool <> "_ENDPOINT"

abbrev pub has_var : String → List EnvVar → Bool
has_var name env = any_of (λ e. e.name == name) env

-- Append to the container's variables if the name is not there.
unfoldable pub add_var : String → String → List EnvVar → List EnvVar
add_var name value env =
    if has_var name env
    then env
    else env ++ record { name = name; value = EnvSource.literal value } ∷ []

module _ {F : Type 0} where
  unfoldable pub inject_endpoint : String → String → AgentDeployment F → AgentDeployment F
  inject_endpoint tool endpoint a = record a {
    spec = record a.spec {
      container = record a.spec.container {
        env = add_var (endpoint_var tool) endpoint a.spec.container.env;
      };
    };
  }

module _ {F : Type 0} (env : Env F) where
  -- validateSemverConstraint: a text that does not parse is no reason to block.
  unfoldable pub validate_semver_constraint : String → String → String → Result (Unit {0})
  validate_semver_constraint tool constraint deployed =
      if not (env.constraint_ok constraint)
      then ok tt
      else if not (env.version_ok deployed)
      then ok tt
      else if not (env.check_version constraint deployed)
      then err (
          failed (
            "MCP tool "
            <> quoted tool
            <> " version constraint "
            <> quoted constraint
            <> " not met: deployed version is "
            <> deployed))
      else ok tt

  -- The annotation, or else the label.
  unfoldable pub deployed_version : Service → String
  deployed_version svc =
      let annotated = text_or_empty (lookup "agentroll.dev/tool-version" svc.annotations) in
      if annotated == ""
      then text_or_empty (lookup "app.kubernetes.io/version" svc.labels)
      else annotated

  unfoldable pub check_tool_version : ToolDependency → Service → Result (Unit {0})
  check_tool_version tool svc =
      if is_set tool.version && is_set (deployed_version svc)
      then validate_semver_constraint tool.name tool.version (deployed_version svc)
      else ok tt

  unfoldable pub service_endpoint : String → String → Service → String
  service_endpoint name namespace svc =
      "http://" <> name <> "." <> namespace <> ".svc:" <> decimal (service_port_or_8080 svc.ports)

  -- The endpoint of a declared tool whose Service was looked up; `none` skips the tool.
  unfoldable pub declared_endpoint :
      String → ToolDependency → Result Service → Result (Option String)
  declared_endpoint namespace tool (ok svc) = elim (check_tool_version tool svc) [
    | ok _ ↦ ok (some (service_endpoint tool.name namespace svc))
    | err e ↦ err e
  ]
  declared_endpoint namespace tool (err e) =
      if is_not_found e
      then (if is_set tool.version
          then err (
              failed (
                "MCP tool "
                <> quoted tool.name
                <> " not found in namespace "
                <> quoted namespace
                <> " (required version: "
                <> tool.version
                <> ")"))
          else ok none)
      else err (wrap ("failed to lookup service for MCP tool " <> quoted tool.name) e)

  -- The endpoint of a tool that an active experiment adds: no version is checked.
  unfoldable pub additional_endpoint :
      String → ToolDependency → Result Service → Result (Option String)
  additional_endpoint namespace tool (ok svc) = ok (some (service_endpoint tool.name namespace svc))
  additional_endpoint namespace tool (err e) =
      if is_not_found e
      then ok none
      else err (wrap ("failed to lookup service for additional tool " <> quoted tool.name) e)

  unfoldable pub settle_endpoint : String → Result (Option String) → Exec F (Unit {0})
  settle_endpoint tool (ok none) = pure tt
  settle_endpoint tool (ok (some endpoint)) = modify (inject_endpoint tool endpoint)
  settle_endpoint tool (err e) = raise e

  -- One round of either loop: an endpoint of the spec's own is taken as it is.
  unfoldable pub resolve_tool :
      (String → ToolDependency → Result Service → Result (Option String))
      → ToolDependency
      → Exec F (Unit {0})
  resolve_tool endpoint_of tool = do
    a ← gets (λ w. w.agent)
    if is_set tool.endpoint then modify (inject_endpoint tool.name tool.endpoint) else (do
      found ← try (ask Kind.service tool.name env.get_service)
      settle_endpoint tool.name (endpoint_of a.namespace tool found))

  unfoldable pub resolve_declared : List String → List ToolDependency → Exec F (Unit {0})
  resolve_declared removed [] = pure tt
  resolve_declared removed (tool ∷ tools) =
      let rest = resolve_declared removed tools in
      do
        if any_of (λ name. name == tool.name) removed
            then pure tt
            else resolve_tool declared_endpoint tool
        rest

  unfoldable pub resolve_additional : List ToolDependency → Exec F (Unit {0})
  resolve_additional [] = pure tt
  resolve_additional (tool ∷ tools) =
      let rest = resolve_additional tools in do resolve_tool additional_endpoint tool; rest

  abbrev removed_by : Option (ToolExperiment F) → List String
  removed_by none = []
  removed_by (some experiment) = experiment.spec.removed_tools

  abbrev added_by : Option (ToolExperiment F) → List ToolDependency
  added_by none = []
  added_by (some experiment) = experiment.spec.additional_tools

  -- reconcileToolDependencies.
  unfoldable pub reconcile_tool_dependencies : ⦃fl : Float64 F⦄ → Exec F (Unit {0})
  reconcile_tool_dependencies = do
    a ← gets (λ w. w.agent)
    if is_empty a.spec.agent_meta.tool_dependencies
          && not (is_set (tool_experiment_of a.spec.evolution))
        then pure tt
        else (do
          active ← active_tool_experiment env
          resolve_declared (removed_by active) a.spec.agent_meta.tool_dependencies
          resolve_additional (added_by active))
