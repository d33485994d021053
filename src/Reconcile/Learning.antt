-- ===== src/Reconcile/Learning.antt =====
-- The optional steps of a pass never stop it.
use agentroll.Prelude.{◌≡◌, sym, ap, ◌∙◌, List, String}
use agentroll.Float.{Float64}
use agentroll.Api.{Condition}
use agentroll.Kube.{Env, Result, ok, err}
use agentroll.Kube.Exec.{Exec, World, ◌>>◌}
use agentroll.Kube.Exec.Atomic.{Total, total_rules}
use agentroll.Kube.Exec.Runs.{onward, in_a_row}
use agentroll.Reconcile.{
  settle_lenient, lenient, quiet, reconcile_checks, reconcile_resources, reconcile_learning, report,
  reconcile_ready,
}

module _ {F : Type 0} where
  settle-Total :
      (reason text : String) (r : Result (Unit {0})) → Total {F = F} (settle_lenient reason text r)
  unfolding settle_lenient
  settle-Total reason text (ok _) = search total_rules
  settle-Total reason text (err e) = search total_rules

  lenient-Total :
      (reason text : String) (step : Exec F (Unit {0})) → Total (lenient reason text step)
  unfolding lenient
  lenient-Total reason text step = search (total_rules, settle-Total) depth 8

  quiet-Total : (step : Exec F (Unit {0})) → Total (quiet step)
  unfolding quiet
  quiet-Total step = search total_rules depth 8

module _ {F : Type 0} ⦃fl : Float64 F⦄ (env : Env F) where
  -- The seven optional steps end without an error, whatever the environment answers.
  pub learning-Total : (version : String) → Total (reconcile_learning env version)
  unfolding reconcile_learning
  learning-Total version = search (total_rules, lenient-Total, quiet-Total) depth 14

module _ {F : Type 0} ⦃fl : Float64 F⦄ (set_condition : List Condition → Condition → List Condition)
    (env : Env F) (version : String) where
  -- Once the templates that the canary needs and the resources of the agent are reconciled without an
  -- error, a pass ends in its report, from the world that the seven optional steps leave: no answer
  -- that they get, and no error of theirs, keeps the status from being written.
  pub reconcile_ready-report :
      (w : World F)
      → ((reconcile_checks env >> reconcile_resources env version) w).0 ≡ ok tt
      → reconcile_ready set_condition env version w
        ≡ report set_condition env version
            (reconcile_learning env version
              ((reconcile_checks env >> reconcile_resources env version) w).1).1
  unfolding reconcile_ready
  reconcile_ready-report w h =
      let checks = reconcile_checks env in
      let resources = reconcile_resources env version in
      let learning = reconcile_learning env version in
      let (c, r, e) = in_a_row checks resources w tt h in
      let u = (resources (checks w).1).1 in
      let (t, l) = (learning-Total env version).at u in
      onward checks _ w tt c
      ∙ onward resources _ (checks w).1 tt r
      ∙ onward learning _ u t l
      ∙ ap (λ v. report set_condition env version (learning v).1) (sym e)
