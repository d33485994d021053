-- ===== src/Reconcile/Circle.antt =====
-- Passes over agents that depend on one another, on an API server that stores what it accepts.
use std.Path.{subst}
use agentroll.Prelude.{
  ◌≡◌, refl, sym, ◌∙◌, ap, ◌⊎◌, inl, inr, false, String, ◌==◌, eq_iff, List, [], ◌∷◌, ◌++◌, All,
  Bool-cases, if◌then◌else◌,
}
use agentroll.Float.{Float64}
use agentroll.Api.{AgentDeployment, Condition}
use agentroll.Kube.{
  Env, Call, update_finalizers, update_status, patch_prompt_experiment, Result, ok, err,
}
use agentroll.Kube.Exec.{World}
use agentroll.Dependencies.Agents.{is_stable}
use agentroll.Dependencies.Gate.{Ready}
use agentroll.Evolution.Dspy.{wire_experiment}
use agentroll.Reconcile.{reconcile}
use agentroll.Reconcile.Gate.{Harmless, reconcile-gated}

-- What a call with this answer makes of the agent that the pass is about.
abbrev after_write :
    {F : Type 0} → Result (Unit {0}) → Call F → AgentDeployment F → AgentDeployment F
after_write (ok _) (update_status st) a = record a { status = st }
after_write (ok _) (update_finalizers names) a = record a { finalizers = names }
after_write (ok _) (patch_prompt_experiment name) a = record a {
  spec = record a.spec { evolution = wire_experiment name a.spec.evolution };
}
after_write _ _ a = a

-- The agent in the store after the calls of a pass over it.
abbrev pub saved :
    {F : Type 0}
    → (List (Call F) → Call F → Result (Unit {0}))
    → AgentDeployment F
    → List (Call F)
    → AgentDeployment F
saved write a [] = a
saved write a (call ∷ log) = after_write (write log call) call (saved write a log)

-- The agents in the store, by their names.
abbrev pub Store : Type 0 → Type 0
Store F = String → Result (AgentDeployment F)

abbrev pub put : {F : Type 0} → String → Result (AgentDeployment F) → Store F → Store F
put name answer s other = if other == name then answer else s other

abbrev pub IsIn : String → List String → Type 0
IsIn name [] = ⊥
IsIn name (x ∷ xs) = (x ≡ name) ⊎ IsIn name xs

-- An agent that exists, is not Stable and not being deleted, and depends on one of the circle.
abbrev pub StuckIn : {F : Type 0} → List String → Result (AgentDeployment F) → Type 0
StuckIn circle (ok a) =
    (a.deleting ≡ false)
    × (is_stable a.status.phase ≡ false)
    × (dep : String) × IsIn dep a.spec.depends_on
    × IsIn dep circle
StuckIn circle (err e) = ⊥

-- Every agent of the circle waits for an agent of the circle.
abbrev pub Held : {F : Type 0} → List String → Store F → Type 0
Held circle s = All (λ name. StuckIn circle (s name)) circle

-- Sequences of passes over the agents of a circle, each in an environment of its own that answers from
-- the store, and of changes of any kind to other agents.
pub data Steps {F : Type 0} ⦃fl : Float64 F⦄
    (set_condition : List Condition → Condition → List Condition) (circle : List String)
    (start : Store F) : Store F → Type 0 where
  begin : Steps set_condition circle start start
  pass :
      {s : Store F}
      → Steps set_condition circle start s
      → (name : String) → IsIn name circle
      → (a : AgentDeployment F) → s name ≡ ok a
      → (env : Env F) → ((log : List (Call F)) (other : String) → env.get_agent log other ≡ s other)
      → (w : World F) → w.log ≡ []
      → Steps set_condition circle start
          (put name (ok (saved env.write a (reconcile set_condition env name w).1.log)) s)
  changed :
      {s : Store F}
      → Steps set_condition circle start s
      → (name : String) → ¬ IsIn name circle
      → (answer : Result (AgentDeployment F)) → Steps set_condition circle start (put name answer s)

All-at : (P : String → Type 0) (xs : List String) (x : String) → All P xs → IsIn x xs → P x
All-at P [] x _ h = absurd h
All-at P (y ∷ ys) x (p, ps) (inl e) = subst P e p
All-at P (y ∷ ys) x (p, ps) (inr h) = All-at P ys x ps h

All-from : {P : String → Type 0} (xs : List String) → ((x : String) → IsIn x xs → P x) → All P xs
All-from [] f = tt
All-from (x ∷ xs) f = (f x (inl refl), All-from xs (λ y h. f y (inr h)))

module _ {F : Type 0} (circle : List String) where
  not_Ready : (r : Result (AgentDeployment F)) → StuckIn circle r → Ready r → ⊥
  not_Ready (ok a) (_, stuck, _, _, _) ready = cc
  not_Ready (err e) stuck ready = absurd stuck

  -- What is put on an agent of the circle.
  put-StuckIn :
      (s : Store F) (name : String) (answer : Result (AgentDeployment F))
      → Held circle s
      → (IsIn name circle → StuckIn circle answer)
      → Held circle (put name answer s)
  put-StuckIn s name answer held stuck = All-from circle λ n member. elim (Bool-cases (n == name)) [
    | inl e ↦ rw e (stuck (subst (λ m. IsIn m circle) ((eq_iff n name).0 e) member))
    | inr e ↦ rw e (All-at (λ m. StuckIn circle (s m)) circle n held member)
  ]

  saved-StuckIn :
      (write : List (Call F) → Call F → Result (Unit {0})) (a : AgentDeployment F)
      (calls : List (Call F))
      → All Harmless calls
      → StuckIn circle (ok a)
      → StuckIn circle (ok (saved write a (calls ++ [])))
  saved-StuckIn write a [] _ stuck = stuck
  saved-StuckIn write a (call ∷ calls) (harmless, rest) stuck =
      after_write-StuckIn (write (calls ++ []) call) call (saved write a (calls ++ [])) harmless
        (saved-StuckIn write a calls rest stuck)
    where
      after_write-StuckIn :
          (r : Result (Unit {0})) (call : Call F) (b : AgentDeployment F)
          → Harmless call
          → StuckIn circle (ok b)
          → StuckIn circle (ok (after_write r call b))
      after_write-StuckIn (ok _) (update_status st) b h stuck = absurd h
      after_write-StuckIn (ok _) (patch_prompt_experiment name) b h stuck = absurd h
      after_write-StuckIn (ok _) call b h stuck = stuck
      after_write-StuckIn (err e) call b h stuck = stuck

module _ {F : Type 0} ⦃fl : Float64 F⦄ (set_condition : List Condition → Condition → List Condition)
    (circle : List String) where
  pass-StuckIn :
      (s : Store F) (name : String) (a : AgentDeployment F) (env : Env F) (w : World F)
      → Held circle s
      → IsIn name circle
      → s name ≡ ok a
      → ((log : List (Call F)) (other : String) → env.get_agent log other ≡ s other)
      → w.log ≡ []
      → StuckIn circle (ok (saved env.write a (reconcile set_condition env name w).1.log))
  pass-StuckIn s name a env w held member found steady fresh =
      let waits : (n : String) → IsIn n circle → StuckIn circle (s n) =
        λ n. All-at (λ n. StuckIn circle (s n)) circle n held in
      let (live, unstable, dep, depends, inside) =
        subst (λ r. StuckIn circle r) found (waits name member) in
      let (calls, log, harmless) =
        reconcile-gated set_condition env w name a s (steady w.log name ∙ found) live steady
          (λ ready.
            not_Ready circle (s dep) (waits dep inside)
              (All-at (λ other. Ready (s other)) a.spec.depends_on dep ready depends)) in
      subst (λ l. StuckIn circle (ok (saved env.write a l)))
        (sym (log ∙ ap (λ l. calls ++ l) fresh))
        (saved-StuckIn circle env.write a calls harmless (live, unstable, dep, depends, inside))

  -- Agents that are not Stable and each depend on one of them never become Stable, whatever passes the
  -- controller makes over them and whatever becomes of the other agents, as long as nobody else edits or
  -- deletes them and the answers about agents do not change during a pass.
  pub reconcile-Held :
      (start s : Store F) → Held circle start → Steps set_condition circle start s → Held circle s
  reconcile-Held start s held begin = held
  reconcile-Held start s held (pass {s = s1} r name member a found env steady w fresh) =
      let before = reconcile-Held start s1 held r in
      put-StuckIn circle s1 name _ before
        (λ _. pass-StuckIn s1 name a env w before member found steady fresh)
  reconcile-Held start s held (changed {s = s1} r name outside answer) =
      put-StuckIn circle s1 name answer (reconcile-Held start s1 held r)
        (λ member. absurd (outside member))
