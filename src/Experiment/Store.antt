-- ===== src/Experiment/Store.antt =====
-- An API server that stores the statuses of tool experiments that it accepts.
use std.Path.{subst}
use text.Mathlib.TextPositions.{eq_refl}
use agentroll.Prelude.{
  ◌≡◌, refl, sym, ◌∙◌, inl, inr, true, false, String, List, [], ◌∷◌, ◌==◌, Bool-cases,
  if◌then◌else◌,
}
use agentroll.Api.{ToolExperiment, ExperimentStatus}
use agentroll.Kube.{Env, Call, update_experiment_status, Result, ok, err}

-- What a call with this answer makes of an experiment in the store.
abbrev pub after_call :
    {F : Type 0} → Result (Unit {0}) → Call F → ToolExperiment F → ToolExperiment F
after_call (ok _) (update_experiment_status name st) y =
    if name == y.name then record y { status = st } else y
after_call _ _ y = y

-- The experiment in the store after these calls, if it was `x` before them.
abbrev pub stored :
    {F : Type 0}
    → (List (Call F) → Call F → Result (Unit {0}))
    → ToolExperiment F
    → List (Call F)
    → ToolExperiment F
stored write x [] = x
stored write x (call ∷ log) = after_call (write log call) call (stored write x log)

-- A call that writes the status of no experiment with this name.
abbrev pub IsOther : {F : Type 0} → String → Call F → Type 0
IsOther name (update_experiment_status name' st) = (name' == name) ≡ false
IsOther name _ = Unit

after_call-name :
    {F : Type 0} (r : Result (Unit {0})) (call : Call F) (y : ToolExperiment F)
    → (after_call r call y).name ≡ y.name
after_call-name (ok _) (update_experiment_status name st) y = elim (Bool-cases (name == y.name)) [
  | inl e ↦ rw e refl
  | inr e ↦ rw e refl
]
after_call-name (ok _) call y = refl
after_call-name (err e) call y = refl

after_call_other :
    {F : Type 0} (r : Result (Unit {0})) (call : Call F) (y : ToolExperiment F)
    → IsOther y.name call
    → after_call r call y ≡ y
after_call_other (ok _) (update_experiment_status name st) y h = rw h refl
after_call_other (ok _) call y h = refl
after_call_other (err e) call y h = refl

module _ {F : Type 0} (env : Env F) (x : ToolExperiment F) where
  stored-name : (log : List (Call F)) → (stored env.write x log).name ≡ x.name
  stored-name [] = refl
  stored-name (call ∷ log) =
      after_call-name (env.write log call) call (stored env.write x log) ∙ stored-name log

  pub stored_other :
      (call : Call F) (log : List (Call F))
      → IsOther x.name call
      → stored env.write x (call ∷ log) ≡ stored env.write x log
  stored_other call log h =
      after_call_other (env.write log call) call (stored env.write x log)
        (subst (λ name. IsOther name call) (sym (stored-name log)) h)

  pub stored_accepted :
      (name : String) (st : ExperimentStatus F) (log : List (Call F))
      → name ≡ (stored env.write x log).name
      → env.write log (update_experiment_status name st) ≡ ok tt
      → (stored env.write x (update_experiment_status name st ∷ log)).status ≡ st
  stored_accepted name st log same e =
      let test = subst (λ m. (name == m) ≡ true) same (eq_refl name) in rw (e, test) refl

-- The API server answers a Get of `x` with the status that it has accepted last.
abbrev pub Stores : {F : Type 0} → Env F → ToolExperiment F → Type 0
Stores {F} env x =
    (log : List (Call F)) → env.get_experiment log x.name ≡ ok (stored env.write x log)
