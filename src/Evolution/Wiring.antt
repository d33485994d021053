-- ===== src/Evolution/Wiring.antt =====
-- What the DSPy optimizer leaves for the experiment that it turns on.
use std.Path.{subst}
use text.Mathlib.TextEquality.{eq_iff}
use text.Mathlib.TextLemmas.{append-eq-nil_iff}
use agentroll.Prelude.{
  ◌≡◌, refl, sym, ◌∙◌, ap, ℕ, true, String, ◌<>◌, ◌==◌, Option, some, none, List, ◌∷◌, Dict, is_set,
  Bool-cases, inl, inr,
}
use agentroll.Float.{Float64}
use agentroll.Api.{AgentDeployment, EvolutionSpec, EvolutionOptimizerSpec, PromptVariantSpec}
use agentroll.Kube.{Env, Call, create_variant, patch_prompt_experiment, Result, ok, err, Err}
use agentroll.Kube.Exec.{World, pure, ◌>>=◌, ◌>>◌}
use agentroll.Kube.Exec.Runs.{
  Result-cases, Returns, Returns-bind, Returns-then, Returns-pure, Returns-if, Returns-wrapping,
}
use agentroll.Evolution.Dspy.{
  dspy_variant_name, dspy_labels, dspy_variant_spec, create_dspy_prompt_variant, after_patch,
  wire_experiment, wire_dspy_variant, optimize_dspy, reconcile_dspy_optimizer,
}

-- The last call created a variant of this name, for the agent in memory.
abbrev Created : {F : Type 0} → Env F → String → World F → Type 0
Created {F} env name w =
    (labels : Dict String) × (spec : PromptVariantSpec) × (rest : List (Call F)) × (w.log
      ≡ create_variant name labels spec ∷ rest)
    × (spec.agent_deployment_ref ≡ w.agent.name)
    × (is_set name ≡ true)
    × (env.write rest (create_variant name labels spec) ≡ ok tt)

-- The last two calls asked for a variant for the agent in memory, which was accepted, and for its
-- experiment, which is the one that the agent in memory names.
abbrev Turned : {F : Type 0} → Env F → World F → Type 0
Turned {F} env w =
    (name : String) × (labels : Dict String) × (spec : PromptVariantSpec) × (rest : List (Call F))
    × (w.log ≡ patch_prompt_experiment name ∷ create_variant name labels spec ∷ rest)
    × (spec.agent_deployment_ref ≡ w.agent.name)
    × ((ev : EvolutionSpec) → w.agent.spec.evolution ≡ some ev → ev.prompt_experiment ≡ name)
    × (is_set name ≡ true)
    × (env.write rest (create_variant name labels spec) ≡ ok tt)

-- The last two calls created the variant that the spec's experiment is, for the agent in memory, and
-- turned on that experiment.
abbrev pub Wired : {F : Type 0} → Env F → EvolutionSpec → World F → Type 0
Wired {F} env ev w =
    (labels : Dict String) × (spec : PromptVariantSpec) × (rest : List (Call F)) × (w.log
      ≡ patch_prompt_experiment ev.prompt_experiment
        ∷ create_variant ev.prompt_experiment labels spec
        ∷ rest)
    × (spec.agent_deployment_ref ≡ w.agent.name)
    × (is_set ev.prompt_experiment ≡ true)
    × (env.write rest (create_variant ev.prompt_experiment labels spec) ≡ ok tt)

is_set-append : (s t u : String) → is_set t ≡ true → is_set (s <> t <> u) ≡ true
is_set-append s t u h = elim (Bool-cases ((s <> t <> u) == "")) [
  | inl e ↦
      let empty = (eq_iff (s <> t <> u) "").0 e in
      let t_empty : t ≡ "" = (append-eq-nil_iff.0 (append-eq-nil_iff.0 empty).1).0 in
      cc (t_empty, h)
  | inr e ↦ rw e refl
]

named : (agent_name : String) (now : ℕ) → is_set (dspy_variant_name agent_name now) ≡ true
unfolding dspy_variant_name
named agent_name now = is_set-append agent_name "-dspy-" _ refl

ok-inj : {A : Type 0} {a b : A} → ok a ≡ ok b → a ≡ b
ok-inj h = cc

not_ok : {A : Type 0} {e : Err} {b : A} → err e ≡ ok b → ⊥
not_ok h = cc

module _ {F : Type 0} (env : Env F) where
  abbrev logged : String → ℕ → World F → World F
  logged optimized samples w = record w {
    log =
        create_variant (dspy_variant_name w.agent.name env.now) (dspy_labels w.agent.name)
          (dspy_variant_spec w.agent optimized samples)
        ∷ w.log;
  }

  create-Created :
      (optimized : String) (samples : ℕ)
      → Returns (λ name w. Created env name w) (create_dspy_prompt_variant env optimized samples)
  unfolding create_dspy_prompt_variant ◌>>=◌
  create-Created optimized samples = record { at = λ w b h. ended w b h }
    where
      ended :
          (w : World F) (b : String)
          → (create_dspy_prompt_variant env optimized samples w).0 ≡ ok b
          → Created env b (create_dspy_prompt_variant env optimized samples w).1
      ended w b h =
          elim (Result-cases (
            env.write w.log (
              create_variant (dspy_variant_name w.agent.name env.now) (dspy_labels w.agent.name)
                (dspy_variant_spec w.agent optimized samples)))) [
                  | inl e ↦ rw e (
                      subst (λ n. Created env n (logged optimized samples w)) (ok-inj (rw e at h))
                        (_, _, w.log, refl, refl, named w.agent.name env.now, e))
                  | inr (d, e) ↦ absurd (not_ok (rw e at h))
                ]

wire_lem :
    (name : String) (o : Option EvolutionSpec) (ev : EvolutionSpec)
    → wire_experiment name o ≡ some ev
    → ev.prompt_experiment ≡ name
wire_lem name none ev h = cc
wire_lem name (some e) ev h = cc

-- The evolution in an answer names the experiment that was sent; where none was sent, there is none.
abbrev pub Answers : Option EvolutionSpec → Option EvolutionSpec → Type 0
Answers none answer = answer ≡ none
Answers (some ev) none = ⊥
Answers (some ev) (some answer) = answer.prompt_experiment ≡ ev.prompt_experiment

pub Answers-refl : (o : Option EvolutionSpec) → Answers o o
Answers-refl none = refl
Answers-refl (some ev) = refl

answers_lem :
    (name : String) (o o' : Option EvolutionSpec)
    → Answers o o'
    → ((ev : EvolutionSpec) → o ≡ some ev → ev.prompt_experiment ≡ name)
    → (ev' : EvolutionSpec) → o' ≡ some ev'
    → ev'.prompt_experiment ≡ name
answers_lem name none o' same names ev' e = cc
answers_lem name (some ev) none gone same ev' e = absurd gone
answers_lem name (some ev) (some answer) same names ev' e = let h = names ev refl in cc

-- The answer to a Patch of the experiment is the agent of this name with that experiment, whatever else
-- has become of its spec and its status.
abbrev pub Patches : {F : Type 0} → Env F → Type 0
Patches {F} env =
    (log : List (Call F)) (a : AgentDeployment F)
    → ((env.patched log a).name ≡ a.name)
      × Answers a.spec.evolution (env.patched log a).spec.evolution

module _ {F : Type 0} ⦃fl : Float64 F⦄ (env : Env F) (kept : Patches env) where
  after_patch-Turned :
      (answer : Result (Unit {0})) (proposal : String) (w : World F)
      → Turned env w
      → Turned env ((after_patch env answer >> pure proposal) w).1
  unfolding after_patch ◌>>=◌
  after_patch-Turned (ok _) proposal w (name, labels, spec, rest, sent, ref, wired, set, accepted) =
      (
        name,
        labels,
        spec,
        rest,
        sent,
        ref ∙ sym (kept w.log w.agent).0,
        answers_lem name w.agent.spec.evolution _ (kept w.log w.agent).1 wired,
        set,
        accepted,
      )
  after_patch-Turned (err e) proposal w wired = wired

  wire-Turned :
      (name : String) (samples : ℕ) (w : World F)
      → Created env name w
      → Turned env (wire_dspy_variant env name samples w).1
  unfolding wire_dspy_variant ◌>>=◌
  wire-Turned name samples w (labels, spec, rest, sent, ref, set, accepted) =
      after_patch-Turned (env.write w.log (patch_prompt_experiment name)) _ _ (
        name,
        labels,
        spec,
        rest,
        ap (λ l. patch_prompt_experiment name ∷ l) sent,
        ref,
        wire_lem name w.agent.spec.evolution,
        set,
        accepted,
      )

  optimize-Turned :
      (ev : EvolutionSpec) (optimizer : EvolutionOptimizerSpec)
      → Returns (λ s w. is_set s ≡ true → Turned env w) (optimize_dspy env ev optimizer)
  unfolding optimize_dspy
  optimize-Turned ev optimizer = Returns-bind _ _ λ a. Returns-bind _ _ λ prompt.
      Returns-bind _ _ λ key. Returns-bind _ _ λ optimized.
        Returns-if _ _ _
          (Returns-then _ _ _ _ (Returns-wrapping _ _ (create-Created env optimized _))
            (λ name w created b h _. wire-Turned name _ w created))
          (Returns-pure "" (λ w h. cc))

  reconcile-Turned :
      (ev : EvolutionSpec) (optimizer : EvolutionOptimizerSpec)
      → Returns (λ s w. is_set s ≡ true → Turned env w) (reconcile_dspy_optimizer env ev optimizer)
  unfolding reconcile_dspy_optimizer
  reconcile-Turned ev optimizer = Returns-bind _ _ λ a.
      Returns-if _ _ _ (Returns-pure "" (λ w h. cc)) (
        Returns-bind _ _
          λ active. Returns-if _ _ _ (Returns-pure "" (λ w h. cc)) (optimize-Turned ev optimizer))

Turned-Wired :
    {F : Type 0} (env : Env F) (w : World F) (ev : EvolutionSpec)
    → Turned env w
    → w.agent.spec.evolution ≡ some ev
    → Wired env ev w
Turned-Wired env w ev (name, labels, spec, rest, sent, ref, turned, set, accepted) e =
    let named_in : ev.prompt_experiment ≡ name = turned ev e in
    (
      labels,
      spec,
      rest,
      subst (λ n. w.log ≡ patch_prompt_experiment n ∷ create_variant n labels spec ∷ rest)
          (sym named_in) sent,
      ref,
      subst (λ n. is_set n ≡ true) (sym named_in) set,
      subst (λ n. env.write rest (create_variant n labels spec) ≡ ok tt) (sym named_in) accepted,
    )

quiet_lem :
    {F : Type 0}
    → ⦃fl : Float64 F⦄
    → (env : Env F) (ev : EvolutionSpec) (optimizer : EvolutionOptimizerSpec) (w : World F)
    → is_set ev.prompt_experiment ≡ true
    → reconcile_dspy_optimizer env ev optimizer w ≡ (ok "", w)
unfolding reconcile_dspy_optimizer ◌>>=◌
quiet_lem env ev optimizer w h = rw h refl

-- When a Patch is answered with the experiment that was sent, a pass of the DSPy optimizer that makes a
-- proposal has created a variant for this agent, by its last call but one, which the API server has
-- accepted, and has asked it by the last to turn on the experiment that the agent in memory then names,
-- which is that variant; so the optimizer does nothing on the spec that results, in any cluster and
-- state.
pub reconcile_dspy_optimizer-Wired :
    {F : Type 0}
    → ⦃fl : Float64 F⦄
    → (env env2 : Env F) (ev ev2 : EvolutionSpec) (optimizer optimizer2 : EvolutionOptimizerSpec)
      (w w2 : World F) (proposal : String)
    → Patches env
    → (reconcile_dspy_optimizer env ev optimizer w).0 ≡ ok proposal
    → is_set proposal ≡ true
    → (reconcile_dspy_optimizer env ev optimizer w).1.agent.spec.evolution ≡ some ev2
    → Wired env ev2 (reconcile_dspy_optimizer env ev optimizer w).1
      × (reconcile_dspy_optimizer env2 ev2 optimizer2 w2 ≡ (ok "", w2))
reconcile_dspy_optimizer-Wired env env2 ev ev2 optimizer optimizer2 w w2 proposal kept returned made
      after =
    let turned = (reconcile-Turned env kept ev optimizer).at w proposal returned made in
    let (labels, spec, rest, sent, ref, set, accepted) =
      Turned-Wired env (reconcile_dspy_optimizer env ev optimizer w).1 ev2 turned after in
    ((labels, spec, rest, sent, ref, set, accepted), quiet_lem env2 ev2 optimizer2 w2 set)
