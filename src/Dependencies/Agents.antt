-- ===== src/Dependencies/Agents.antt =====
-- checkAgentDependencies of internal/controller/agentdeployment_controller.go.
use agentroll.Prelude.{Bool, true, false, String, ◌<>◌, List, [], ◌∷◌, quoted, if◌then◌else◌}
use agentroll.Api.{AgentDeployment, AgentDeploymentPhase}
use agentroll.Kube.{Env, Result, ok, err, is_not_found, wrap, Kind}
use agentroll.Kube.Exec.{Exec, pure, raise, gets, try, ask, ◌>>=◌}

abbrev pub is_stable : AgentDeploymentPhase → Bool
is_stable AgentDeploymentPhase.stable = true
is_stable _ = false

module _ {F : Type 0} (env : Env F) where
  -- Whether one dependency, as fetched, holds the agent back.
  unfoldable pub holds_back : String → Result (AgentDeployment F) → Exec F Bool
  holds_back name (ok dep) = pure (if is_stable dep.status.phase then false else true)
  holds_back name (err e) =
      if is_not_found e
      then pure true
      else raise (wrap ("failed to fetch dependency " <> quoted name) e)

  -- The loop over spec.dependsOn, with its two early returns.
  unfoldable pub wait_for : List String → Exec F Bool
  wait_for [] = pure false
  wait_for (name ∷ names) =
      let rest = wait_for names in
      do
        found ← try (ask Kind.agent name env.get_agent)
        waiting ← holds_back name found
        if waiting then pure true else rest

  -- checkAgentDependencies: true asks for a requeue.
  unfoldable pub check_agent_dependencies : Exec F Bool
  check_agent_dependencies = do a ← gets (λ w. w.agent); wait_for a.spec.depends_on
