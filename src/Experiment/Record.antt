-- ===== src/Experiment/Record.antt =====
-- When an experiment is concluded in the agent's own status: the lineage is written once the API
-- server has acknowledged the end of the experiment, and not before.
use agentroll.Prelude.{ℕ, ◌≡◌, String, Option, none, some, arith}
use agentroll.Float.{Float64}
use agentroll.Api.{
  AgentDeployment, PromptVariant, ToolExperiment, ExperimentStatus, ExperimentPhase, Outcome,
}
use agentroll.Kube.{Env, Err, Result, ok, err, ConfigMap}
use agentroll.Kube.Exec.{World, ◌>>=◌}
use agentroll.Kube.Exec.Keeps.{Keeps, keeps_rules}
use agentroll.Kube.Exec.Atomic.{
  Atomic, Atomic-Keeps, Atomic-Total, unchanged, total_rules, atomic_rules,
}
use agentroll.Experiment.Decide.{Decision, waiting, promote, reject}
use agentroll.Experiment.Prompt.{
  lineage_entry, start_experiment, write_winning_prompt, promote_variant, reject_variant,
  evaluate_experiment, reconcile_prompt_experiment, found_or_fresh, conclude, advance_prompt,
  prompt_fetched, evaluate_from,
}
use agentroll.Experiment.Tool.{
  start_tool_experiment, promote_tool_experiment, reject_tool_experiment, conclude_tool,
  evaluate_tool_from, evaluate_tool_experiment, advance_tool, tool_fetched,
  reconcile_tool_experiment, tool_entry,
}
use agentroll.History.{append_tool_lineage, append_prompt_lineage}
use agentroll.Scorecard.{increment_optimization_generation}

module _ {F : Type 0} ⦃fl : Float64 F⦄ (env : Env F) where
  found_or_fresh-Keeps :
      (name : String) (found : Result ConfigMap) → Keeps unchanged (found_or_fresh env name found)
  unfolding found_or_fresh
  found_or_fresh-Keeps name (ok cm) = search keeps_rules
  found_or_fresh-Keeps name (err e) = search keeps_rules

  write_winning_prompt-Keeps :
      (name : String) (v : PromptVariant F) → Keeps unchanged (write_winning_prompt env name v)
  unfolding write_winning_prompt
  write_winning_prompt-Keeps name v = search (keeps_rules, found_or_fresh-Keeps) depth 12

  start-Atomic : (v : PromptVariant F) → Atomic (start_experiment env v)
  unfolding start_experiment
  start-Atomic v = Atomic-Keeps _ (search keeps_rules depth 12)

  promote-Atomic :
      (v : PromptVariant F) (st : ExperimentStatus F) → Atomic (promote_variant env v st)
  unfolding promote_variant
  promote-Atomic v st =
      search (atomic_rules, Atomic-Total, total_rules, keeps_rules, write_winning_prompt-Keeps)
        depth 14

  reject-Atomic : (v : PromptVariant F) (st : ExperimentStatus F) → Atomic (reject_variant env v st)
  unfolding reject_variant
  reject-Atomic v st = search (atomic_rules, Atomic-Total, total_rules, keeps_rules) depth 14

  conclude-Atomic :
      (v : PromptVariant F) (p : ExperimentStatus F × Decision) → Atomic (conclude env v p)
  unfolding conclude
  conclude-Atomic v (st, waiting) = Atomic-Keeps _ (search keeps_rules depth 12)
  conclude-Atomic v (st, promote) = promote-Atomic v st
  conclude-Atomic v (st, reject) = reject-Atomic v st

  evaluate-Atomic :
      (v : PromptVariant F) (started : Option ℕ) → Atomic (evaluate_from env v started)
  unfolding evaluate_from
  evaluate-Atomic v none = search (Atomic-Total, total_rules)
  evaluate-Atomic v (some at) = search (atomic_rules, keeps_rules, conclude-Atomic) depth 12

  advance-Atomic :
      (phase : ExperimentPhase) (v : PromptVariant F) → Atomic (advance_prompt env phase v)
  unfolding advance_prompt evaluate_experiment
  advance-Atomic ExperimentPhase.unset v = start-Atomic v
  advance-Atomic ExperimentPhase.pending v = start-Atomic v
  advance-Atomic ExperimentPhase.testing v = evaluate-Atomic v v.status.experiment_started_at
  advance-Atomic ExperimentPhase.promoted v = search (Atomic-Total, total_rules)
  advance-Atomic ExperimentPhase.rejected v = search (Atomic-Total, total_rules)

  fetched-Atomic :
      (a : AgentDeployment F) (name : String) (found : Result (PromptVariant F))
      → Atomic (prompt_fetched env a name found)
  unfolding prompt_fetched
  fetched-Atomic a name (ok v) = advance-Atomic v.status.phase v
  fetched-Atomic a name (err e) = Atomic-Keeps _ (search keeps_rules)

  -- A pass over a prompt experiment that ends in an error leaves the agent as it was: no lineage entry
  -- and no new generation for a conclusion that the API server has not acknowledged.
  pub reconcile_prompt_experiment-Atomic :
      (w : World F) (e : Err)
      → (reconcile_prompt_experiment env w).0 ≡ err e
      → (reconcile_prompt_experiment env w).1.agent ≡ w.agent
  unfolding reconcile_prompt_experiment
  reconcile_prompt_experiment-Atomic w e = pass.at w e
    where
      pass : Atomic (reconcile_prompt_experiment env)
      pass = search (atomic_rules, Atomic-Total, total_rules, keeps_rules, fetched-Atomic) depth 14

  start_tool-Atomic : (x : ToolExperiment F) → Atomic (start_tool_experiment env x)
  unfolding start_tool_experiment
  start_tool-Atomic x = Atomic-Keeps _ (search keeps_rules depth 12)

  conclude_tool-Atomic :
      (x : ToolExperiment F) (p : ExperimentStatus F × Decision) → Atomic (conclude_tool env x p)
  unfolding conclude_tool promote_tool_experiment reject_tool_experiment
  conclude_tool-Atomic x (st, waiting) = Atomic-Keeps _ (search keeps_rules depth 12)
  conclude_tool-Atomic x (st, promote) =
      search (atomic_rules, Atomic-Total, total_rules, keeps_rules) depth 14
  conclude_tool-Atomic x (st, reject) =
      search (atomic_rules, Atomic-Total, total_rules, keeps_rules) depth 14

  evaluate_tool-Atomic :
      (x : ToolExperiment F) (started : Option ℕ) → Atomic (evaluate_tool_from env x started)
  unfolding evaluate_tool_from
  evaluate_tool-Atomic x none = search (Atomic-Total, total_rules)
  evaluate_tool-Atomic x (some at) =
      search (atomic_rules, keeps_rules, conclude_tool-Atomic) depth 12

  advance_tool-Atomic :
      (phase : ExperimentPhase) (x : ToolExperiment F) → Atomic (advance_tool env phase x)
  unfolding advance_tool evaluate_tool_experiment
  advance_tool-Atomic ExperimentPhase.unset x = start_tool-Atomic x
  advance_tool-Atomic ExperimentPhase.pending x = start_tool-Atomic x
  advance_tool-Atomic ExperimentPhase.testing x =
      evaluate_tool-Atomic x x.status.experiment_started_at
  advance_tool-Atomic ExperimentPhase.promoted x = search (Atomic-Total, total_rules)
  advance_tool-Atomic ExperimentPhase.rejected x = search (Atomic-Total, total_rules)

  tool_fetched-Atomic :
      (a : AgentDeployment F) (name : String) (found : Result (ToolExperiment F))
      → Atomic (tool_fetched env a name found)
  unfolding tool_fetched
  tool_fetched-Atomic a name (ok x) = advance_tool-Atomic x.status.phase x
  tool_fetched-Atomic a name (err e) = Atomic-Keeps _ (search keeps_rules)

  -- A pass over a tool experiment that ends in an error leaves the agent as it was.
  pub reconcile_tool_experiment-Atomic :
      (w : World F) (e : Err)
      → (reconcile_tool_experiment env w).0 ≡ err e
      → (reconcile_tool_experiment env w).1.agent ≡ w.agent
  unfolding reconcile_tool_experiment
  reconcile_tool_experiment-Atomic w e = pass.at w e
    where
      pass : Atomic (reconcile_tool_experiment env)
      pass =
          search (atomic_rules, Atomic-Total, total_rules, keeps_rules, tool_fetched-Atomic) depth
            14

  -- A pass over the winning tool experiment that returns without an error has recorded it: the lineage
  -- has gained the entry of the experiment and the optimization generation has been incremented.
  promote_tool_experiment-recorded :
      (x : ToolExperiment F) (st : ExperimentStatus F) (w : World F)
      → (promote_tool_experiment env x st w).0 ≡ ok tt
      → (promote_tool_experiment env x st w).1.agent
        ≡ increment_optimization_generation (record w.agent {
          status = append_tool_lineage w.agent.status (tool_entry env x st Outcome.promoted);
        })
  unfolding promote_tool_experiment ◌>>=◌
  promote_tool_experiment-recorded x st w h = ground arith

  -- A rejection of a prompt variant that returns without an error has recorded it in the lineage, and
  -- nothing else of the agent has changed: the optimization generation counts promotions only.
  reject_variant-recorded :
      (v : PromptVariant F) (st : ExperimentStatus F) (w : World F)
      → (reject_variant env v st w).0 ≡ ok tt
      → (reject_variant env v st w).1.agent ≡ record w.agent {
        status = append_prompt_lineage w.agent.status (lineage_entry env v st Outcome.rejected);
      }
  unfolding reject_variant ◌>>=◌
  reject_variant-recorded v st w h = ground arith
