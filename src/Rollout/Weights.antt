-- ===== src/Rollout/Weights.antt =====
-- What the canary of an Argo Rollout keeps of spec.rollout.steps.
use agentroll.Prelude.{
  ℕ, true, ◌≡◌, refl, ap, String, Option, none, some, List, [], ◌∷◌, ◌++◌, map, lookup, All,
  All-append, is_set, arith, Bool-cases, inl, inr,
}
use mathlib.Core.List.{append-nil}
use agentroll.Float.{Float64}
use agentroll.Api.{AgentDeployment, RolloutStep, PauseSpec, StepAnalysis}
use agentroll.Kube.{CanaryStep, set_weight, pause, analysis}
use agentroll.Rollout.Steps.{
  is_managed, pause_steps, analysis_steps, translate_step, translate_all, translate_steps,
  cost_steps, cost_spike_of, standard_args, first_port_or_8080, canary_version,
}

-- The weights that a canary sets, in their order.
abbrev pub weights_of : List CanaryStep → List ℕ
weights_of [] = []
weights_of (set_weight n ∷ steps) = n ∷ weights_of steps
weights_of (pause _ ∷ steps) = weights_of steps
weights_of (analysis _ _ ∷ steps) = weights_of steps

-- The templates that it runs, in their order.
abbrev pub analyses_of : List CanaryStep → List String
analyses_of [] = []
analyses_of (set_weight _ ∷ steps) = analyses_of steps
analyses_of (pause _ ∷ steps) = analyses_of steps
analyses_of (analysis name _ ∷ steps) = name ∷ analyses_of steps

-- The templates that the steps of a spec name.
abbrev pub template_refs : List RolloutStep → List String
template_refs [] = []
template_refs (step ∷ steps) =
    elim step.analysis [ none ↦ [] | some s ↦ s.template_ref ∷ [] ] ++ template_refs steps

-- The template that spec.rollback.onCostSpike adds.
abbrev pub cost_refs : Option String → List String
cost_refs none = []
cost_refs (some _) = "agent-cost-check" ∷ []

weights_of-append :
    (xs ys : List CanaryStep) → weights_of (xs ++ ys) ≡ weights_of xs ++ weights_of ys
weights_of-append [] ys = refl
weights_of-append (set_weight n ∷ xs) ys = ap (λ l. n ∷ l) (weights_of-append xs ys)
weights_of-append (pause _ ∷ xs) ys = weights_of-append xs ys
weights_of-append (analysis _ _ ∷ xs) ys = weights_of-append xs ys

analyses_of-append :
    (xs ys : List CanaryStep) → analyses_of (xs ++ ys) ≡ analyses_of xs ++ analyses_of ys
analyses_of-append [] ys = refl
analyses_of-append (set_weight _ ∷ xs) ys = analyses_of-append xs ys
analyses_of-append (pause _ ∷ xs) ys = analyses_of-append xs ys
analyses_of-append (analysis name _ ∷ xs) ys = ap (λ l. name ∷ l) (analyses_of-append xs ys)

module _ {F : Type 0} ⦃fl : Float64 F⦄ where
  step_tail :
      (a : AgentDeployment F) (p : Option PauseSpec) (s : Option StepAnalysis)
      → (weights_of (pause_steps p ++ analysis_steps a s) ≡ [])
        × (analyses_of (pause_steps p ++ analysis_steps a s)
            ≡ elim s [ none ↦ [] | some x ↦ x.template_ref ∷ [] ])
  unfolding pause_steps analysis_steps
  step_tail a none none = (refl, refl)
  step_tail a none (some s) = (refl, refl)
  step_tail a (some p) none = ground arith
  step_tail a (some p) (some s) = ground arith

  translate_all_lem :
      (a : AgentDeployment F) (steps : List RolloutStep)
      → (weights_of (translate_all a steps) ≡ map (λ s. s.set_weight) steps)
        × (analyses_of (translate_all a steps) ≡ template_refs steps)
  unfolding translate_all translate_step
  translate_all_lem a [] = (refl, refl)
  translate_all_lem a (step ∷ steps) =
      let (tw, ta) = step_tail a step.pause step.analysis in
      let (ws, names) = translate_all_lem a steps in
      let tail = pause_steps step.pause ++ analysis_steps a step.analysis in
      (
        ap (λ l. step.set_weight ∷ l)
            (rw (weights_of-append tail (translate_all a steps), tw, ws) refl),
        rw (analyses_of-append tail (translate_all a steps), ta, names) refl,
      )

  cost_steps_lem :
      (a : AgentDeployment F) (threshold : Option String)
      → (weights_of (cost_steps a threshold) ≡ [])
        × (analyses_of (cost_steps a threshold) ≡ cost_refs threshold)
  unfolding cost_steps
  cost_steps_lem a none = (refl, refl)
  cost_steps_lem a (some threshold) = (refl, refl)

  -- The canary of a Rollout sets the weights of spec.rollout.steps, in their order and no other, and
  -- runs the analyses that the steps name, in their order, then "agent-cost-check" if and only if
  -- spec.rollback.onCostSpike is there.
  pub translate_steps_lem :
      (a : AgentDeployment F)
      → (weights_of (translate_steps a) ≡ map (λ s. s.set_weight) a.spec.rollout.steps)
        × (analyses_of (translate_steps a)
            ≡ template_refs a.spec.rollout.steps ++ cost_refs (cost_spike_of a.spec.rollback))
  unfolding translate_steps
  translate_steps_lem a =
      let (ws, names) = translate_all_lem a a.spec.rollout.steps in
      let (cw, cn) = cost_steps_lem a (cost_spike_of a.spec.rollback) in
      let costs = cost_steps a (cost_spike_of a.spec.rollback) in
      let joined = translate_all a a.spec.rollout.steps in
      (
        rw (weights_of-append joined costs, ws, cw) (append-nil _),
        rw (analyses_of-append joined costs, names, cn) refl,
      )

  -- What a step of a canary must be given: a managed template of the spec's own steps gets the agent's
  -- address and the two versions to compare.
  abbrev pub HasStandardArgs : AgentDeployment F → CanaryStep → Type 0
  HasStandardArgs a (set_weight _) = Unit
  HasStandardArgs a (pause _) = Unit
  HasStandardArgs a (analysis name args) =
      is_managed name ≡ true
      → (lookup "service-name" args ≡ some a.name)
        × (lookup "service-port" args ≡ some (first_port_or_8080 a.spec.container.ports))
        × (lookup "namespace" args ≡ some a.namespace)
        × (lookup "canary-version" args ≡ some (canary_version a.spec))
        × (lookup "stable-version" args ≡ some a.status.stable_version)

  args_given :
      (a : AgentDeployment F) (s : Option StepAnalysis)
      → All (HasStandardArgs a) (analysis_steps a s)
  unfolding analysis_steps standard_args lookup
  args_given a none = tt
  args_given a (some s) = ((λ managed. rw managed (refl, refl, refl, refl, refl)), tt)

  pauses_given :
      (a : AgentDeployment F) (p : Option PauseSpec) → All (HasStandardArgs a) (pause_steps p)
  unfolding pause_steps
  pauses_given a none = tt
  pauses_given a (some p) = elim (Bool-cases (is_set p.duration)) [
    | inl e ↦ rw e (tt, tt)
    | inr e ↦ rw e tt
  ]

  -- Every analysis that a user's step asks of a managed template gets the five standard arguments.
  translate_all-HasStandardArgs :
      (a : AgentDeployment F) (steps : List RolloutStep)
      → All (HasStandardArgs a) (translate_all a steps)
  unfolding translate_all translate_step
  translate_all-HasStandardArgs a [] = tt
  translate_all-HasStandardArgs a (step ∷ steps) =
      let tail = pause_steps step.pause ++ analysis_steps a step.analysis in
      (
        tt,
        All-append (HasStandardArgs a) tail (translate_all a steps)
            (All-append (HasStandardArgs a) (pause_steps step.pause)
              (analysis_steps a step.analysis) (pauses_given a step.pause)
              (args_given a step.analysis))
            (translate_all-HasStandardArgs a steps),
      )
