-- ===== src/Tests/Rollouts.antt =====
-- The theorems on the Rollout, its templates and the agent's dependencies, on the sample cluster.
use agentroll.Prelude.{some, ◌⊎◌, ◌≡◌, refl, ◌↔◌, String, false, lookup, [], ◌∷◌, All}
use agentroll.Float.Milli.{milli}
use agentroll.Kube.{ok}
use agentroll.Kube.Exec.Sends.{Sent}
use agentroll.Dependencies.Agents.{check_agent_dependencies}
use agentroll.Dependencies.Tools.{reconcile_tool_dependencies}
use agentroll.Dependencies.Gate.{Ready, check_agent_dependencies-open}
use agentroll.Dependencies.Endpoints.{Extends, reconcile_tool_dependencies-Extends}
use agentroll.Rollout.Steps.{translate_steps}
use agentroll.Rollout.Weights.{weights_of, analyses_of, translate_steps_lem}
use agentroll.Rollout.Templates.Managed.{reconcile_analysis_template}
use agentroll.Rollout.Templates.Applied.{Wanted, reconcile_analysis_template-Wanted}
use agentroll.Deletion.{handle_deletion}
use agentroll.Deletion.Order.{RolloutGone, handle_deletion-RolloutGone}
use agentroll.Rollout.Resources.{desired_rollout, desired_service}
use agentroll.Rollout.Selection.{Selects, desired_rollout-Selects}
use agentroll.Rollout.Version.{extract_image_tag, build_composite_version}
use agentroll.Rollout.Version.Forgets.{with_tools, build_composite_version-perm}
use agentroll.Api.{ToolDependency}
use mathlib.Core.List.Perm
use agentroll.Rollout.Version.Tags.{extract_image_tag_lem}
use agentroll.Dependencies.Variables.{IsVariable, endpoint_var-IsVariable}
use agentroll.Dependencies.Tools.{endpoint_var}
use agentroll.Prelude.{inl, inr, arith}
use agentroll.Tests.Samples.{search_tool, refusing, agent, world, spec, cluster}

endpoint_var-IsVariable_example :
    IsVariable (endpoint_var "kb-2")
    × ((endpoint_var "kb-2" ≡ endpoint_var "kb2") ↔ ◌≡◌ {A = String} "kb-2" "kb2")
endpoint_var-IsVariable_example =
    endpoint_var-IsVariable "kb-2" "kb2"
      (
        inl (omega arith, omega arith),
        (
          inl (omega arith, omega arith),
          (inr (inr refl), (inr (inl (omega arith, omega arith)), tt)),
        ),
      )
      (
        inl (omega arith, omega arith),
        (inl (omega arith, omega arith), (inr (inl (omega arith, omega arith)), tt)),
      )

check_agent_dependencies-open_example :
    ((check_agent_dependencies cluster world).0 ≡ ok false)
    ↔ All {A = String} (λ name. Ready (ok agent)) ("planner" ∷ [])
check_agent_dependencies-open_example =
    check_agent_dependencies-open cluster (λ name. ok agent) (λ log name. refl) world

reconcile_tool_dependencies-Extends_example :
    Extends agent (reconcile_tool_dependencies cluster world).1.agent
reconcile_tool_dependencies-Extends_example = reconcile_tool_dependencies-Extends cluster world

translate_steps_lem_example :
    (weights_of (translate_steps agent) ≡ 20 ∷ 100 ∷ [])
    × (analyses_of (translate_steps agent) ≡ "agent-quality-check" ∷ "agent-cost-check" ∷ [])
translate_steps_lem_example = translate_steps_lem agent

reconcile_analysis_template-Wanted_example :
    Sent (Wanted spec.rollout.steps) world (reconcile_analysis_template cluster world).1
reconcile_analysis_template-Wanted_example = reconcile_analysis_template-Wanted cluster world

handle_deletion-RolloutGone_example :
    ((handle_deletion refusing world).1.agent ≡ agent) ⊎ RolloutGone refusing world
handle_deletion-RolloutGone_example = handle_deletion-RolloutGone refusing world

desired_rollout-Selects_example :
    let rollout = desired_rollout agent "p1.m1.v3" in
    Selects rollout.selector rollout.pod_labels
    × Selects (desired_service agent).selector rollout.pod_labels
    × (lookup "agentroll.dev/composite-version" rollout.pod_labels ≡ some "p1.m1.v3")
    × (rollout.pod.service_account_name ≡ spec.service_account_name)
desired_rollout-Selects_example = desired_rollout-Selects agent "p1.m1.v3"

extract_image_tag_lem_example : extract_image_tag "localhost:5000/agent:v3" ≡ "v3"
extract_image_tag_lem_example =
    extract_image_tag_lem ":" "localhost:5000/agent" "v3" refl (refl, refl, (refl, refl, tt))

abbrev planner : ToolDependency
planner = record { name = "planner"; version = "^1.0"; endpoint = "" }

build_composite_version-perm_example :
    build_composite_version cluster (with_tools (search_tool ∷ planner ∷ []) agent)
    ≡ build_composite_version cluster (with_tools (planner ∷ search_tool ∷ []) agent)
build_composite_version-perm_example =
    build_composite_version-perm cluster agent (search_tool ∷ planner ∷ [])
      (planner ∷ search_tool ∷ []) (Perm.swap planner search_tool [])
