-- ===== src/Status/Conditions.antt =====
-- The three conditions that setStatusConditions leaves on an AgentDeployment.
use agentroll.Prelude.{
  ℕ, ◌≡◌, refl, ◌∙◌, ◌↔◌, ◌⊎◌, true, String, ◌==◌, Option, none, some, List, [], ◌∷◌, arith,
  if◌then◌else◌,
}
use agentroll.Api.{AgentDeployment, AgentDeploymentPhase, AgentDeploymentStatus, Condition}
use agentroll.Status.{conditions_of, set_status_conditions}

-- The condition of a kind: what `kubectl wait` looks at.
abbrev pub find_condition : String → List Condition → Option Condition
find_condition kind [] = none
find_condition kind (c ∷ cs) =
    let later = find_condition kind cs in if c.kind == kind then some c else later

-- What apimeta.SetStatusCondition documents: the condition of that kind is the new one, and the
-- others are as they were.
abbrev pub Sets : (List Condition → Condition → List Condition) → Type 0
Sets set_condition =
    (cs : List Condition) (c : Condition) (kind : String)
    → find_condition kind (set_condition cs c)
      ≡ (if c.kind == kind then some c else find_condition kind cs)

-- What the list says of one kind: the condition is there, of the current generation, and it is true
-- exactly when `P` holds.
abbrev pub Says : List Condition → String → ℕ → Type 0 → Type 0
Says cs kind generation P =
    (c : Condition) × (find_condition kind cs ≡ some c)
    × (c.observed_generation ≡ generation)
    × ((c.status ≡ true) ↔ P)

abbrev pub InFlight : AgentDeploymentPhase → Type 0
InFlight phase =
    (phase ≡ AgentDeploymentPhase.progressing) ⊎ (phase ≡ AgentDeploymentPhase.rolling_back)

abbrev pub Failing : AgentDeploymentPhase → Type 0
Failing phase =
    (phase ≡ AgentDeploymentPhase.degraded) ⊎ (phase ≡ AgentDeploymentPhase.rolling_back)

module _ {F : Type 0} where
  conditions_of_lem :
      (phase : AgentDeploymentPhase) (st : AgentDeploymentStatus F)
      → (((conditions_of phase st).0.0 ≡ true) ↔ (phase ≡ AgentDeploymentPhase.stable))
        × (((conditions_of phase st).1.0 ≡ true) ↔ InFlight phase)
        × (((conditions_of phase st).2.0 ≡ true) ↔ Failing phase)
  unfolding conditions_of
  conditions_of_lem AgentDeploymentPhase.unset st = grind arith
  conditions_of_lem AgentDeploymentPhase.pending st = grind arith
  conditions_of_lem AgentDeploymentPhase.progressing st = grind arith
  conditions_of_lem AgentDeploymentPhase.stable st = grind arith
  conditions_of_lem AgentDeploymentPhase.degraded st = grind arith
  conditions_of_lem AgentDeploymentPhase.rolling_back st = grind arith

  -- When SetStatusCondition does what it documents, setStatusConditions leaves the three conditions on
  -- the agent, each of its current generation: Available is true exactly in the phase Stable,
  -- Progressing exactly in Progressing and RollingBack, and Degraded exactly in Degraded and
  -- RollingBack.
  pub set_status_conditions_lem :
      (set_condition : List Condition → Condition → List Condition)
      → Sets set_condition
      → (a : AgentDeployment F)
      → let cs = (set_status_conditions set_condition a).status.conditions in
        Says cs "Available" a.generation (a.status.phase ≡ AgentDeploymentPhase.stable)
        × Says cs "Progressing" a.generation (InFlight a.status.phase)
        × Says cs "Degraded" a.generation (Failing a.status.phase)
  unfolding set_status_conditions
  set_status_conditions_lem set_condition sets a =
      let (p, q, r) = conditions_of_lem a.status.phase a.status in
      (
        (_, sets _ _ "Available" ∙ sets _ _ "Available" ∙ sets _ _ "Available", refl, p),
        (_, sets _ _ "Progressing" ∙ sets _ _ "Progressing", refl, q),
        (_, sets _ _ "Degraded", refl, r),
      )
