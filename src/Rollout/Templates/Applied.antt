-- ===== src/Rollout/Templates/Applied.antt =====
-- Which AnalysisTemplates a pass of reconcileAnalysisTemplate writes.
use agentroll.Prelude.{
  ◌≡◌, ◌≢◌, refl, ◌⊎◌, inl, inr, Bool, true, String, ◌==◌, eq_iff, Option, none, some, List, [],
  ◌∷◌, any_of, arith, Bool-cases, lookup, if◌then◌else◌, not,
}
use agentroll.Api.{RolloutStep, StepAnalysis}
use agentroll.Kube.{Env, Call, ok, read, apply_template, AnalysisTemplate, Kind}
use agentroll.Kube.Exec.{World, ◌>>=◌}
use agentroll.Kube.Exec.Sends.{Sends, Sent, Sends-bind, sends_rules}
use agentroll.Rollout.Steps.{is_managed}
use agentroll.Rollout.Templates.Managed.{
  template_names, is_foreign, reconcile_template, reconcile_templates, reconcile_analysis_template,
}

-- Some step of the spec asks for this template.
abbrev pub Names : String → List RolloutStep → Type 0
Names name [] = ⊥
Names name (step ∷ steps) =
    ((s : StepAnalysis) × (step.analysis ≡ some s) × (s.template_ref ≡ name)) ⊎ Names name steps

abbrev is_in : String → List String → Bool
is_in name names = any_of (λ n. n == name) names

add_name_lem :
    (o : Option StepAnalysis) (name : String) (rest : List String)
    → is_in name (elim o [
      | none ↦ rest
      | some s ↦ if is_in s.template_ref rest then rest else s.template_ref ∷ rest
    ])
      ≡ true
    → ((s : StepAnalysis) × (o ≡ some s) × (s.template_ref ≡ name)) ⊎ (is_in name rest ≡ true)
unfolding any_of
add_name_lem none name rest h = inr h
add_name_lem (some s) name rest h = elim (Bool-cases (is_in s.template_ref rest)) [
  | inl e ↦ inr (ground arith)
  | inr e ↦ elim (Bool-cases (s.template_ref == name)) [
    | inl d ↦ inl (s, refl, (eq_iff s.template_ref name).0 d)
    | inr d ↦ inr (ground arith)
  ]
]

template_names-Names :
    (name : String) (steps : List RolloutStep)
    → is_in name (template_names steps) ≡ true
    → Names name steps
unfolding template_names any_of
template_names-Names name [] h = cc
template_names-Names name (step ∷ steps) h =
    elim (add_name_lem step.analysis name (template_names steps) h) [
      | inl here ↦ inl here
      | inr later ↦ inr (template_names-Names name steps later)
    ]

-- What a pass over these steps may send: it reads, and it writes templates that a step names, that
-- are managed and that carry the label of AgentRoll.
abbrev pub Wanted : {F : Type 0} → List RolloutStep → Call F → Type 0
Wanted steps (read kind name) = Unit
Wanted steps (apply_template t) =
    Names t.name steps
    × (is_managed t.name ≡ true)
    × (lookup "app.kubernetes.io/managed-by" t.labels ≡ some "agentroll")
Wanted steps _ = ⊥

module _ {F : Type 0} (env : Env F) (steps : List RolloutStep) where
  labelled :
      (name kind : String)
      → lookup "app.kubernetes.io/managed-by" (
          ("app.kubernetes.io/managed-by", "agentroll")
          ∷ ("agentroll.dev/template-type", kind)
          ∷ [])
        ≡ some "agentroll"
  unfolding lookup
  labelled name kind = refl

  reconcile_template-Sends :
      (name : String)
      → Names name steps
      → Sends (Wanted {F = F} steps) (reconcile_template env name)
  unfolding reconcile_template
  reconcile_template-Sends name named = search (sends_rules, labelled) depth 14

  reconcile_templates-Sends :
      (names : List String)
      → ((name : String) → is_in name names ≡ true → Names name steps)
      → Sends (Wanted {F = F} steps) (reconcile_templates env names)
  unfolding reconcile_templates any_of
  reconcile_templates-Sends [] h = search sends_rules
  reconcile_templates-Sends (name ∷ names) h =
      Sends-bind _ _ (reconcile_template-Sends name (h name head))
        (λ _. reconcile_templates-Sends names (λ n e. h n (later n e)))
    where
      head : is_in name (name ∷ names) ≡ true
      head = rw ((eq_iff name name).1 refl) refl

      later : (n : String) → is_in n names ≡ true → is_in n (name ∷ names) ≡ true
      later n e = elim (Bool-cases (name == n)) [ inl d ↦ rw d refl | inr d ↦ rw d e ]

-- Whatever the environment answers, a pass over the AnalysisTemplates sends nothing but reads and
-- templates that are managed, labelled as AgentRoll's own, and named by an analysis of a step of
-- spec.rollout.steps. So the template that spec.rollback.onCostSpike makes the canary run is not
-- created by it unless a step names that template too.
pub reconcile_analysis_template-Wanted :
    {F : Type 0} (env : Env F) (w : World F)
    → Sent (Wanted w.agent.spec.rollout.steps) w (reconcile_analysis_template env w).1
unfolding reconcile_analysis_template ◌>>=◌
reconcile_analysis_template-Wanted env w =
    let steps = w.agent.spec.rollout.steps in
    (reconcile_templates-Sends env steps (template_names steps)
        (λ n e. template_names-Names n steps e)).at
      w

-- A template of the same name that is there without the label of AgentRoll is left as it is: the pass
-- reads it and writes nothing.
reconcile_template-foreign :
    {F : Type 0} (env : Env F) (w : World F) (name : String) (theirs : AnalysisTemplate)
    → env.get_template w.log name ≡ ok theirs
    → lookup "app.kubernetes.io/managed-by" theirs.labels ≢ some "agentroll"
    → is_managed name ≡ true
    → reconcile_template env name w ≡ (ok tt, record w { log = read Kind.template name ∷ w.log })
unfolding reconcile_template is_foreign ◌>>=◌
reconcile_template-foreign env w name theirs found unlabelled managed =
    rw (managed, found, foreign (lookup "app.kubernetes.io/managed-by" theirs.labels) unlabelled)
      refl
  where
    foreign :
        (o : Option String)
        → o ≢ some "agentroll"
        → elim o [ none ↦ true | some owner ↦ not (owner == "agentroll") ] ≡ true
    foreign none h = refl
    foreign (some owner) h = elim (Bool-cases (owner == "agentroll")) [
      | inl e ↦ absurd (h (rw ((eq_iff owner "agentroll").0 e) refl))
      | inr e ↦ rw e refl
    ]
