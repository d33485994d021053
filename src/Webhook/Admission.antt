-- ===== src/Webhook/Admission.antt =====
-- What the admission webhook admits.
use agentroll.Prelude.{
  ℕ, ◌+◌, ◌<◌, ◌≡◌, ◌≢◌, refl, ◌↔◌, ◌⊎◌, inl, inr, true, false, String, ◌==◌, eq_iff, Option, none,
  some, List, [], ◌∷◌, ◌++◌, arith, leb, is_set, has_percent, trim_percent, All, Bool-cases, ◌&&◌,
  if◌then◌else◌,
}
use agentroll.Float.{Float64}
use agentroll.Api.{AgentDeployment, AgentDeploymentSpec, ScalingSpec, ToolDependency}
use agentroll.Webhook.{
  FieldError, threshold_of, is_missing, check_percentage, check_threshold, validate_cost_spike,
  check_scaling, validate_scaling, check_version, check_versions, validate_tool_dependencies,
  check_dependencies, validate_depends_on, validate_agent_deployment_spec, validate_create,
  validate_update, validate_delete,
}

-- A threshold is a text that ends in a percent sign, and what stands before it parses to a float64 that
-- is not at most 100.
abbrev pub ThresholdIsValid : (F : Type 0) ⦃fl : Float64 F⦄ → Option String → Type 0
ThresholdIsValid F none = Unit
ThresholdIsValid F ⦃fl⦄ (some threshold) =
    (has_percent threshold ≡ true)
    × (val : F) × (fl.parse (trim_percent threshold) ≡ some val)
    × (fl.le val (fl.of_nat 100) ≡ false)

abbrev pub ScalingIsValid : Option ScalingSpec → Type 0
ScalingIsValid none = Unit
ScalingIsValid (some s) =
    (s.min_replicas < s.max_replicas)
    × ((s.metric ≢ "queue-depth") ⊎ (is_missing s.queue_ref ≡ false))

-- The version of a tool is not given, or is a constraint that parses.
abbrev pub VersionIsValid : (String → Option String) → ToolDependency → Type 0
VersionIsValid constraint_error td = (td.version ≡ "") ⊎ (constraint_error td.version ≡ none)

append_empty {ℓ} : {A : Type ℓ} (xs ys : List A) → (xs ++ ys ≡ []) ↔ ((xs ≡ []) × (ys ≡ []))
append_empty [] ys = ((λ e. (refl, e)), λ (_, e). e)
append_empty (x ∷ xs) ys = ((λ e. cc), λ (e, _). cc)

module _ (F : Type 0) ⦃fl : Float64 F⦄ where
  check_percentage_lem :
      (threshold : String) (parsed : Option F)
      → (check_percentage F threshold parsed ≡ [])
        ↔ ((val : F) × (parsed ≡ some val) × (fl.le val (fl.of_nat 100) ≡ false))
  unfolding check_percentage
  check_percentage_lem threshold none = ((λ e. cc), λ (v, e, _). cc)
  check_percentage_lem threshold (some val) = elim (Bool-cases (fl.le val (fl.of_nat 100))) [
    | inl low ↦ rw low ((λ e. cc), λ (v, e, high). cc)
    | inr high ↦ rw high ((λ _. (val, refl, high)), λ _. refl)
  ]

  check_threshold_lem : (o : Option String) → (check_threshold F o ≡ []) ↔ ThresholdIsValid F o
  unfolding check_threshold
  check_threshold_lem none = ((λ _. tt), λ _. refl)
  check_threshold_lem (some threshold) =
      let (p, q) = check_percentage_lem threshold (fl.parse (trim_percent threshold)) in
      elim (Bool-cases (has_percent threshold)) [
        | inl e ↦ rw e ((λ d. let (v, r, t) = p d in (refl, v, r, t)), λ (_, v, r, t). q (v, r, t))
        | inr e ↦ rw e ((λ d. cc), λ (d, _, _, _). cc)
      ]

replicas_lem :
    (s : ScalingSpec) (e : FieldError)
    → ((if leb s.max_replicas s.min_replicas then e ∷ [] else []) ≡ [])
      ↔ (s.min_replicas < s.max_replicas)
replicas_lem s e = elim (Bool-cases (leb s.max_replicas s.min_replicas)) [
  | inl low ↦ rw low ((λ d. cc), λ less. absurd (no_less low less))
  | inr high ↦ rw high ((λ _. more high), λ _. refl)
]
  where
    no_less : leb s.max_replicas s.min_replicas ≡ true → ¬ (s.min_replicas < s.max_replicas)
    no_less low = λ less. ground arith

    more : leb s.max_replicas s.min_replicas ≡ false → s.min_replicas < s.max_replicas
    more high = ground arith

queue_lem :
    (s : ScalingSpec) (e : FieldError)
    → ((if s.metric == "queue-depth" && is_missing s.queue_ref then e ∷ [] else []) ≡ [])
      ↔ ((s.metric ≢ "queue-depth") ⊎ (is_missing s.queue_ref ≡ false))
queue_lem s e = elim (Bool-cases (s.metric == "queue-depth")) [
  | inr other ↦ rw other ((λ _. inl (λ d. absurd (other_metric other d))), λ _. refl)
  | inl depth ↦ elim (Bool-cases (is_missing s.queue_ref)) [
    | inl gone ↦
        rw (depth, gone)
          (
            (λ d. cc),
            λ p. elim p [
              | inl n ↦ absurd (n ((eq_iff s.metric "queue-depth").0 depth))
              | inr there ↦ cc
            ],
          )
    | inr there ↦ rw (depth, there) ((λ _. inr refl), λ _. refl)
  ]
]
  where
    other_metric : (s.metric == "queue-depth") ≡ false → s.metric ≢ "queue-depth"
    other_metric other = λ d. let same = (eq_iff s.metric "queue-depth").1 d in cc

check_scaling_lem : (o : Option ScalingSpec) → (check_scaling o ≡ []) ↔ ScalingIsValid o
unfolding check_scaling
check_scaling_lem none = ((λ _. tt), λ _. refl)
check_scaling_lem (some s) =
    let (f, g) = append_empty _ _ in
    let (p, q) = replicas_lem s _ in
    let (r, t) = queue_lem s _ in ((λ e. (p (f e).0, r (f e).1)), λ (a, b). g (q a, t b))

check_constraint_lem :
    (constraint_error : String → Option String) (i : ℕ) (td : ToolDependency) (o : Option String)
    → is_set td.version ≡ true
    → constraint_error td.version ≡ o
    → (check_version constraint_error i td ≡ []) ↔ VersionIsValid constraint_error td
unfolding check_version
check_constraint_lem constraint_error i td none set e = rw (set, e) ((λ _. inr refl), λ _. refl)
check_constraint_lem constraint_error i td (some reason) set e =
    rw (set, e) ((λ d. cc), λ p. elim p [ inl unset ↦ absurd (bare unset) | inr d ↦ cc ])
  where
    bare : td.version ≢ ""
    bare = λ unset. let same = (eq_iff td.version "").1 unset in cc

check_version_lem :
    (constraint_error : String → Option String) (i : ℕ) (td : ToolDependency)
    → (check_version constraint_error i td ≡ []) ↔ VersionIsValid constraint_error td
unfolding check_version
check_version_lem constraint_error i td = elim (Bool-cases (td.version == "")) [
  | inl e ↦ rw e ((λ _. inl ((eq_iff td.version "").0 e)), λ _. refl)
  | inr e ↦
      check_constraint_lem constraint_error i td (constraint_error td.version) (rw e refl) refl
]

check_versions_lem :
    (constraint_error : String → Option String) (i : ℕ) (tools : List ToolDependency)
    → (check_versions constraint_error i tools ≡ []) ↔ All (VersionIsValid constraint_error) tools
unfolding check_versions
check_versions_lem constraint_error i [] = ((λ _. tt), λ _. refl)
check_versions_lem constraint_error i (td ∷ tools) =
    let (f, g) =
      append_empty (check_version constraint_error i td)
        (check_versions constraint_error (i + 1) tools) in
    let (p, q) = check_version_lem constraint_error i td in
    let (r, s) = check_versions_lem constraint_error (i + 1) tools in
    ((λ e. (p (f e).0, r (f e).1)), λ (a, b). g (q a, s b))

check_dependencies_lem :
    (name : String) (i : ℕ) (deps : List String)
    → (check_dependencies name i deps ≡ []) ↔ All (λ dep. dep ≢ name) deps
unfolding check_dependencies
check_dependencies_lem name i [] = ((λ _. tt), λ _. refl)
check_dependencies_lem name i (dep ∷ deps) =
    let (r, s) = check_dependencies_lem name (i + 1) deps in
    elim (Bool-cases (dep == name)) [
      | inl e ↦ rw e ((λ d. cc), λ (n, _). absurd (n ((eq_iff dep name).0 e)))
      | inr e ↦ rw e ((λ d. ((λ same. absurd (differs e same)), r d)), λ (_, rest). s rest)
    ]
  where
    differs : (dep == name) ≡ false → dep ≢ name
    differs e = λ same. let d = (eq_iff dep name).1 same in cc

-- What the webhook is there to let through.
abbrev pub SpecIsValid :
    (F : Type 0) ⦃fl : Float64 F⦄ → (String → Option String) → String → AgentDeploymentSpec → Type 0
SpecIsValid F constraint_error name spec =
    ThresholdIsValid F (threshold_of spec.rollback)
    × ScalingIsValid spec.scaling
    × All (VersionIsValid constraint_error) spec.agent_meta.tool_dependencies
    × All (λ dep. dep ≢ name) spec.depends_on

-- The rules find no error exactly in a valid spec.
pub validate_agent_deployment_spec_lem :
    (F : Type 0)
    → ⦃fl : Float64 F⦄
    → (constraint_error : String → Option String) (name : String) (spec : AgentDeploymentSpec)
    → (validate_agent_deployment_spec F constraint_error name spec ≡ [])
      ↔ SpecIsValid F constraint_error name spec
unfolding validate_agent_deployment_spec validate_cost_spike validate_scaling
    validate_tool_dependencies validate_depends_on
validate_agent_deployment_spec_lem F constraint_error name spec =
    let (p, p') = check_threshold_lem F (threshold_of spec.rollback) in
    let (q, q') = check_scaling_lem spec.scaling in
    let (r, r') = check_versions_lem constraint_error 0 spec.agent_meta.tool_dependencies in
    let (s, s') = check_dependencies_lem name 0 spec.depends_on in
    let (f, f') = append_empty _ _ in
    let (g, g') = append_empty _ _ in
    let (h, h') = append_empty _ _ in
    (
      (λ e. (p (h (g (f e).0).0).0, q (h (g (f e).0).0).1, r (g (f e).0).1, s (f e).1)),
      λ (a, b, c, d). f' (g' (h' (p' a, q' b), r' c), s' d),
    )

-- The webhook admits an AgentDeployment, on creation and on update, if and only if its cost threshold is
-- a percentage that is not at most 100, its replicas have a proper range, with a queue where the metric
-- is the depth of a queue, the version constraints of its tools parse, and it does not depend on itself.
-- It admits every deletion. A threshold that is no number, "NaN%", is not at most 100.
pub validate_update_lem :
    {F : Type 0}
    → ⦃fl : Float64 F⦄ → (constraint_error : String → Option String) (old a : AgentDeployment F)
    → ((validate_create F constraint_error a ≡ []) ↔ SpecIsValid F constraint_error a.name a.spec)
      × ((validate_update F constraint_error old a ≡ [])
          ↔ SpecIsValid F constraint_error a.name a.spec)
      × (validate_delete F constraint_error a ≡ [])
unfolding validate_create validate_update validate_delete
validate_update_lem {F = F} constraint_error old a =
    let rules = validate_agent_deployment_spec_lem F constraint_error a.name a.spec in
    (rules, rules, refl)
