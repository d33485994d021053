-- ===== src/Dependencies/Gate.antt =====
-- The gate on spec.dependsOn: checkAgentDependencies against what the dependencies' phases say.
use agentroll.Prelude.{
  ◌≡◌, refl, ◌↔◌, Bool, true, false, String, List, [], ◌∷◌, All, Bool-cases, inl, inr,
  if◌then◌else◌,
}
use agentroll.Api.{AgentDeployment}
use agentroll.Kube.{Env, Call, Result, ok, err, is_not_found, read, Kind}
use agentroll.Kube.Exec.{Exec, World, pure, ◌>>=◌}
use agentroll.Dependencies.Agents.{is_stable, holds_back, wait_for, check_agent_dependencies}

module _ {F : Type 0} where
  -- The dependency exists and is Stable.
  abbrev pub Ready : Result (AgentDeployment F) → Type 0
  Ready (ok dep) = is_stable dep.status.phase ≡ true
  Ready (err e) = ⊥

  -- The `Get` of a dependency failed with an error that is not NotFound.
  abbrev pub Broken : Result (AgentDeployment F) → Type 0
  Broken (ok dep) = ⊥
  Broken (err e) = is_not_found e ≡ false

module _ {F : Type 0} (env : Env F) (P : Type 0) (name : String) (rest : Exec F Bool) where
  -- One round of the loop over a rest that opens exactly when `P` holds.
  round-open :
      (r : Result (AgentDeployment F)) (w : World F)
      → (((v : World F) → ((rest v).0 ≡ ok false) ↔ P))
      → (((holds_back env name r >>= λ waiting. if waiting then pure true else rest) w).0
          ≡ ok false)
        ↔ (Ready r × P)
  unfolding holds_back ◌>>=◌
  round-open (ok dep) w h = elim (Bool-cases (is_stable dep.status.phase)) [
    | inl e ↦ rw e ((λ q. (refl, (h w).0 q)), λ p. (h w).1 p.1)
    | inr e ↦ rw e ((λ q. cc), λ p. cc)
  ]
  round-open (err e) w h = elim (Bool-cases (is_not_found e)) [
    | inl d ↦ rw d ((λ q. cc), λ p. absurd p.0)
    | inr d ↦ rw d ((λ q. cc), λ p. absurd p.0)
  ]

module _ {F : Type 0} (env : Env F) (answer : String → Result (AgentDeployment F)) where
  wait_for-open :
      ((log : List (Call F)) (name : String) → env.get_agent log name ≡ answer name)
      → (names : List String) (w : World F)
      → ((wait_for env names w).0 ≡ ok false) ↔ All (λ name. Ready (answer name)) names
  unfolding wait_for ◌>>=◌
  wait_for-open steady [] w = ((λ _. tt), λ _. refl)
  wait_for-open steady (name ∷ names) w = rw (steady w.log name) (
      round-open env (All (λ n. Ready (answer n)) names) name (wait_for env names) (answer name)
        (record w { log = read Kind.agent name ∷ w.log }) (wait_for-open steady names))

  -- While the answers about the other agents do not change, the gate lets an agent through if and
  -- only if every agent that spec.dependsOn names exists and is Stable.
  pub check_agent_dependencies-open :
      ((log : List (Call F)) (name : String) → env.get_agent log name ≡ answer name)
      → (w : World F)
      → ((check_agent_dependencies env w).0 ≡ ok false)
        ↔ All (λ name. Ready (answer name)) w.agent.spec.depends_on
  unfolding check_agent_dependencies ◌>>=◌
  check_agent_dependencies-open steady w = wait_for-open steady w.agent.spec.depends_on w
