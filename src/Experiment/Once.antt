-- ===== src/Experiment/Once.antt =====
-- A tool experiment over many passes, on an API server that stores the status it accepts.
use std.Path.{subst}
use agentroll.Prelude.{
  ◌≡◌, ◌≢◌, refl, sym, ap, ◌⊎◌, arith, inl, inr, ℕ, suc, true, List, ◌∷◌, is_set,
}
use agentroll.Float.{Float64}
use agentroll.Api.{AgentDeployment, ToolExperiment, ExperimentPhase}
use agentroll.Kube.{Env, Call, read, Kind, Result, ok}
use agentroll.Kube.Exec.{World}
use agentroll.Experiment.Evidence.{Edge, start_unset, start_pending, keep_testing, win, lose}
use agentroll.Experiment.Progress.{IsFinal}
use agentroll.Experiment.Single.{Single, reconcile_tool_experiment-Single}
use agentroll.Experiment.Store.{stored, IsOther, Stores, stored_other, stored_accepted}
use agentroll.Experiment.Tool.{reconcile_tool_experiment, tool_experiment_of}

no_exit : {p q : ExperimentPhase} → Edge p q → IsFinal p → ⊥
no_exit start_unset f = elim f [ inl e ↦ cc | inr e ↦ cc ]
no_exit start_pending f = elim f [ inl e ↦ cc | inr e ↦ cc ]
no_exit keep_testing f = elim f [ inl e ↦ cc | inr e ↦ cc ]
no_exit win f = elim f [ inl e ↦ cc | inr e ↦ cc ]
no_exit lose f = elim f [ inl e ↦ cc | inr e ↦ cc ]

-- After these calls the experiment in the store has ended.
abbrev pub Ended : {F : Type 0} → Env F → ToolExperiment F → List (Call F) → Type 0
Ended env x log = IsFinal (stored env.write x log).status.phase

-- Sequences of passes over the experiment that the agent names. Between two passes anything may happen
-- to the agent, and any call may be made but one that writes the status of `x`. The number counts the
-- passes that have changed the agent.
pub data Run {F : Type 0} ⦃fl : Float64 F⦄ (env : Env F) (x : ToolExperiment F) (start : World F)
    : World F → ℕ → Type 0 where
  begin : Run env x start start 0
  idle :
      {w : World F} {n : ℕ}
      → Run env x start w n
      → tool_experiment_of w.agent.spec.evolution ≡ x.name
      → (reconcile_tool_experiment env w).1.agent ≡ w.agent
      → Run env x start (reconcile_tool_experiment env w).1 n
  recording :
      {w : World F} {n : ℕ}
      → Run env x start w n
      → tool_experiment_of w.agent.spec.evolution ≡ x.name
      → (reconcile_tool_experiment env w).1.agent ≢ w.agent
      → Run env x start (reconcile_tool_experiment env w).1 (suc n)
  meanwhile :
      {w : World F} {n : ℕ}
      → Run env x start w n
      → (w' : World F) (call : Call F) → IsOther x.name call
      → w'.log ≡ call ∷ w.log
      → Run env x start w' n
  edited :
      {w : World F} {n : ℕ}
      → Run env x start w n
      → (w' : World F) → w'.log ≡ w.log
      → Run env x start w' n

module _ {F : Type 0} ⦃fl : Float64 F⦄ (env : Env F) (x : ToolExperiment F) (stores : Stores env x)
    (named : is_set x.name ≡ true) where
  pass-Single :
      (w : World F)
      → tool_experiment_of w.agent.spec.evolution ≡ x.name
      → Single env
          (stored env.write x w.log)
          (read Kind.experiment x.name ∷ w.log)
          w.agent
          (reconcile_tool_experiment env w)
  pass-Single w e =
      subst
        (λ name.
          Single env (stored env.write x w.log) (read Kind.experiment name ∷ w.log) w.agent
            (reconcile_tool_experiment env w))
        e
        (reconcile_tool_experiment-Single env (stored env.write x w.log) w
          (subst (λ name. is_set name ≡ true) (sym e) named)
          (subst (λ name. env.get_experiment w.log name ≡ ok (stored env.write x w.log)) (sym e)
            (stores w.log)))

  reread :
      (log : List (Call F))
      → stored env.write x (read Kind.experiment x.name ∷ log) ≡ stored env.write x log
  reread log = stored_other env x (read Kind.experiment x.name) log tt

  -- What a pass leaves, of an experiment that has ended and of one that has not.
  after_pass :
      {A : Type 0} (log : List (Call F)) (a : AgentDeployment F) (p : Result A × World F)
      → Single env (stored env.write x log) (read Kind.experiment x.name ∷ log) a p
      → (Ended env x log → (p.1.agent ≡ a) × Ended env x p.1.log)
        × (p.1.agent ≢ a → Ended env x p.1.log)
  after_pass log a p (inl (same_log, same)) = (
    (λ f. (
      same,
      subst (λ l. Ended env x l) (sym same_log)
          (subst (λ y. IsFinal y.status.phase) (sym (reread log)) f),
    )),
    (λ h. absurd (h same)),
  )
  after_pass log a p (inr (st, edge, wrote, inl same)) =
      ((λ f. absurd (no_exit edge f)), (λ h. absurd (h same)))
  after_pass log a p (inr (st, edge, wrote, inr (accepted, final))) = (
    (λ f. absurd (no_exit edge f)),
    (λ h.
        subst (λ l. Ended env x l) (sym wrote)
          (subst (λ st. IsFinal st.phase)
            (sym (
              stored_accepted env x (stored env.write x log).name st
                (read Kind.experiment x.name ∷ log) (ap (λ y. y.name) (sym (reread log))) accepted))
            final)),
  )

  pass_lem :
      (w : World F)
      → tool_experiment_of w.agent.spec.evolution ≡ x.name
      → (Ended env x w.log
          → ((reconcile_tool_experiment env w).1.agent ≡ w.agent)
            × Ended env x (reconcile_tool_experiment env w).1.log)
        × ((reconcile_tool_experiment env w).1.agent ≢ w.agent
            → Ended env x (reconcile_tool_experiment env w).1.log)
  pass_lem w e = after_pass w.log w.agent (reconcile_tool_experiment env w) (pass-Single w e)

  -- Nothing that may happen between two passes takes an ended experiment back.
  meanwhile_lem :
      (w w' : World F) (call : Call F)
      → IsOther x.name call
      → w'.log ≡ call ∷ w.log
      → Ended env x w.log
      → Ended env x w'.log
  meanwhile_lem w w' call other log f =
      subst (λ l. Ended env x l) (sym log)
        (subst (λ y. IsFinal y.status.phase) (sym (stored_other env x call w.log other)) f)

  Run-Ended : {w0 w : World F} {n : ℕ} → Run env x w0 w n → (n ≡ 0) ⊎ ((n ≡ 1) × Ended env x w.log)
  Run-Ended begin = inl refl
  Run-Ended (idle {w} r e same) = elim (Run-Ended r) [
    | inl none_yet ↦ inl none_yet
    | inr (one, f) ↦ inr (one, ((pass_lem w e).0 f).1)
  ]
  Run-Ended (recording {w} r e changed) = elim (Run-Ended r) [
    | inl none_yet ↦ inr (ap suc none_yet, (pass_lem w e).1 changed)
    | inr (one, f) ↦ absurd (changed ((pass_lem w e).0 f).0)
  ]
  Run-Ended (meanwhile {w} r w' call other log) = elim (Run-Ended r) [
    | inl none_yet ↦ inl none_yet
    | inr (one, f) ↦ inr (one, meanwhile_lem w w' call other log f)
  ]
  Run-Ended (edited {w} r w' log) = elim (Run-Ended r) [
    | inl none_yet ↦ inl none_yet
    | inr (one, f) ↦ inr (one, subst (λ l. Ended env x l) (sym log) f)
  ]

  Ended-stays :
      {w0 w : World F} {n : ℕ} → Ended env x w0.log → Run env x w0 w n → (n ≡ 0) × Ended env x w.log
  Ended-stays f begin = (refl, f)
  Ended-stays f (idle {w} r e same) =
      let (none_yet, g) = Ended-stays f r in (none_yet, ((pass_lem w e).0 g).1)
  Ended-stays f (recording {w} r e changed) =
      let (none_yet, g) = Ended-stays f r in absurd (changed ((pass_lem w e).0 g).0)
  Ended-stays f (meanwhile {w} r w' call other log) =
      let (none_yet, g) = Ended-stays f r in (none_yet, meanwhile_lem w w' call other log g)
  Ended-stays f (edited {w} r w' log) =
      let (none_yet, g) = Ended-stays f r in (none_yet, subst (λ l. Ended env x l) (sym log) g)

  -- Over any sequence of passes on an API server that stores the statuses it accepts, whichever writes
  -- it refuses and whatever happens to the agent in between: no pass changes the agent, or one does,
  -- and then the experiment had not ended at the start and has ended now.
  pub reconcile_tool_experiment-once :
      (w0 w : World F) (n : ℕ)
      → Run env x w0 w n
      → (n ≡ 0) ⊎ ((n ≡ 1) × ¬ (Ended env x w0.log) × Ended env x w.log)
  reconcile_tool_experiment-once w0 w n r = elim (Run-Ended r) [
    | inl none_yet ↦ inl none_yet
    | inr (one, f) ↦ inr (one, (λ before. absurd (not_both one (Ended-stays before r).0)), f)
  ]
    where
      not_both : n ≡ 1 → n ≡ 0 → ⊥
      not_both a b = absurd (omega arith)
