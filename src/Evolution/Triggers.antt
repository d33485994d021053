-- ===== src/Evolution/Triggers.antt =====
-- When the evolution loop runs, and which of its strategies.
use agentroll.Prelude.{
  ℕ, ◌<◌, ◌≡◌, refl, ◌⊎◌, inl, inr, Bool, true, false, ◌&&◌, ◌||◌, String, ◌==◌, eq_iff, Option,
  none, some, ltb, ltb→lt, is_set, arith, Bool-cases,
}
use agentroll.Api.{EvolutionSpec, EvolutionStatus, AgentDeploymentPhase}
use agentroll.Memory.Backend.{is_failing}
use agentroll.Evolution.Loop.{next_eval_of, periodic_trigger_due, should_fire, runs_strategy}

-- The canary is failing.
abbrev pub Failing : AgentDeploymentPhase → Type 0
Failing phase =
    (phase ≡ AgentDeploymentPhase.degraded) ⊎ (phase ≡ AgentDeploymentPhase.rolling_back)

-- The strategy of the spec is this one, or all of them.
abbrev pub Runs : EvolutionSpec → String → Type 0
Runs ev name = (ev.strategy ≡ name) ⊎ (ev.strategy ≡ "all") ⊎ (ev.strategy ≡ "")

pub both : (a b : Bool) → (a && b) ≡ true → (a ≡ true) × (b ≡ true)
both true b h = (refl, h)
both false b h = cc

pub failing_lem : (phase : AgentDeploymentPhase) → is_failing phase ≡ true → Failing phase
failing_lem AgentDeploymentPhase.degraded h = inl refl
failing_lem AgentDeploymentPhase.rolling_back h = inr refl
failing_lem AgentDeploymentPhase.unset h = cc
failing_lem AgentDeploymentPhase.pending h = cc
failing_lem AgentDeploymentPhase.progressing h = cc
failing_lem AgentDeploymentPhase.stable h = cc

pub runs_lem : (ev : EvolutionSpec) (name : String) → runs_strategy ev name ≡ true → Runs ev name
runs_lem ev name h = elim (Bool-cases (ev.strategy == "")) [
  | inl unset ↦ inr (inr ((eq_iff ev.strategy "").0 unset))
  | inr given ↦ elim (Bool-cases (ev.strategy == name)) [
    | inl same ↦ inl ((eq_iff ev.strategy name).0 same)
    | inr other ↦ inr (inl ((eq_iff ev.strategy "all").0 (rw (given, other) at h)))
  ]
]

-- The schedule asks for a pass.
abbrev pub NotBefore : ℕ → Option ℕ → Type 0
NotBefore now none = Unit
NotBefore now (some at) = at < now

abbrev pub Due : {F : Type 0} → EvolutionSpec → ℕ → Option (EvolutionStatus F) → Type 0
Due ev now st = (is_set ev.schedule ≡ true) × NotBefore now (next_eval_of st)

-- The loop is enabled, and what its trigger waits for is there.
abbrev pub Fires :
    {F : Type 0} → EvolutionSpec → ℕ → AgentDeploymentPhase → Option (EvolutionStatus F) → Type 0
Fires ev now phase st =
    (ev.enabled ≡ true)
    × ((((ev.trigger ≡ "on-canary-fail") ⊎ (ev.trigger ≡ "")) × Failing phase)
        ⊎ ((ev.trigger ≡ "periodic") × Due ev now st)
        ⊎ ((ev.trigger ≡ "both") × (Failing phase ⊎ Due ev now st)))

due_lem :
    {F : Type 0} (ev : EvolutionSpec) (now : ℕ) (st : Option (EvolutionStatus F))
    → periodic_trigger_due now ev st ≡ true
    → Due ev now st
unfolding periodic_trigger_due
due_lem ev now st h = elim (Bool-cases (is_set ev.schedule)) [
  | inl set ↦ (set, not_before (next_eval_of st) (rw set at h))
  | inr unset ↦ absurd (unscheduled (rw unset at h))
]
  where
    not_before :
        (o : Option ℕ) → (elim o [ none ↦ true | some at ↦ ltb at now ]) ≡ true → NotBefore now o
    not_before none _ = tt
    not_before (some at) d = ltb→lt at now d

    unscheduled : false ≡ true → ⊥
    unscheduled d = cc

either : (a b : Bool) → (a || b) ≡ true → (a ≡ true) ⊎ (b ≡ true)
either a b h = ground arith

pub triggered :
    {F : Type 0} (ev : EvolutionSpec) (now : ℕ) (phase : AgentDeploymentPhase)
    (st : Option (EvolutionStatus F))
    → ev.enabled ≡ true
    → should_fire now ev phase st ≡ true
    → Fires ev now phase st
unfolding should_fire
triggered ev now phase st on h =
    elim (Bool-cases (ev.trigger == "on-canary-fail" || ev.trigger == "")) [
      | inl fail ↦ (
        on,
        inl (
          elim (either (ev.trigger == "on-canary-fail") (ev.trigger == "") fail) [
            | inl e ↦ inl ((eq_iff ev.trigger "on-canary-fail").0 e)
            | inr e ↦ inr ((eq_iff ev.trigger "").0 e)
          ],
          failing_lem phase (rw fail at h),
        ),
      )
      | inr a ↦ elim (Bool-cases (ev.trigger == "periodic")) [
        | inl periodic ↦ (
          on,
          inr (
              inl (
                (eq_iff ev.trigger "periodic").0 periodic,
                due_lem ev now st (rw (a, periodic) at h),
              )),
        )
        | inr b ↦ elim (Bool-cases (ev.trigger == "both")) [
          | inl two ↦ (
            on,
            inr (
                inr (
                  (eq_iff ev.trigger "both").0 two,
                  elim (either (is_failing phase) (periodic_trigger_due now ev st)
                      (rw (a, b, two) at h)) [
                        | inl f ↦ inl (failing_lem phase f)
                        | inr d ↦ inr (due_lem ev now st d)
                      ],
                )),
          )
          | inr c ↦ absurd (never (rw (a, b, c) at h))
        ]
      ]
    ]
  where
    never : false ≡ true → ⊥
    never d = cc
