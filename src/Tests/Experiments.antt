-- ===== src/Tests/Experiments.antt =====
-- The theorems on experiments, on the sample cluster.
use agentroll.Prelude.{arith, ap, ℕ, ◌≢◌, ◌⊎◌, length, ◌≡◌, refl, filter_by, ◌∷◌}
use agentroll.Kube.{Env, ok, api, wrap, read, Kind}
use agentroll.Kube.Exec.{◌>>=◌}
use agentroll.Kube.Exec.Sends.{Sent}
use agentroll.Float.Milli.{ℤ, milli}
use agentroll.History.{append_capped, append_tool_lineage}
use agentroll.Scorecard.{increment_optimization_generation}
use agentroll.Experiment.Prompt.{
  reconcile_prompt_experiment, prompt_experiment_of, prompt_fetched, advance_prompt,
  evaluate_experiment, evaluate_from, conclude, prompt_experiment_min_samples, promote_variant,
  prompt_config_map_of, write_winning_prompt, found_or_fresh,
}
use agentroll.Experiment.Decide.{assess}
use agentroll.Stats.{
  collect_variant_scores, collect_control_scores, welch_t_test, regularized_incomplete_beta,
}
use agentroll.Experiment.Tool.{
  reconcile_tool_experiment, promote_tool_experiment, tool_experiment_of, tool_fetched,
  advance_tool, evaluate_tool_experiment, evaluate_tool_from, conclude_tool,
  tool_experiment_min_samples,
}
use agentroll.Experiment.Legal.{Legal, reconcile_prompt_experiment-Legal}
use agentroll.Experiment.ToolLegal.{LegalTool, reconcile_tool_experiment-LegalTool}
use agentroll.Experiment.Record.{
  reconcile_prompt_experiment-Atomic, reconcile_tool_experiment-Atomic,
}
use agentroll.Experiment.Progress.{Concludes, reconcile_tool_experiment-Concludes}
use agentroll.Experiment.Store.{stored}
use agentroll.Experiment.Once.{Run, Ended, reconcile_tool_experiment-once}
use agentroll.Stats.Scores.{Shared, collect_scores-Shared}
use agentroll.Tests.Samples.{evaluations, agent, world, variant, experiment, cluster, refusing}

reconcile_prompt_experiment-Legal_example :
    Sent (Legal agent variant) world (reconcile_prompt_experiment cluster world).1
reconcile_prompt_experiment-Legal_example =
    reconcile_prompt_experiment-Legal cluster world variant refl

reconcile_tool_experiment-LegalTool_example :
    Sent (LegalTool agent experiment) world (reconcile_tool_experiment cluster world).1
reconcile_tool_experiment-LegalTool_example =
    reconcile_tool_experiment-LegalTool cluster world experiment refl

reconcile_prompt_experiment-Atomic_example :
    (reconcile_prompt_experiment refusing world).1.agent ≡ agent
unfolding reconcile_prompt_experiment prompt_experiment_of prompt_fetched advance_prompt ◌>>=◌
    evaluate_experiment evaluate_from conclude assess collect_variant_scores filter_by
    prompt_experiment_min_samples collect_control_scores welch_t_test regularized_incomplete_beta
    promote_variant prompt_config_map_of write_winning_prompt found_or_fresh
reconcile_prompt_experiment-Atomic_example =
    reconcile_prompt_experiment-Atomic refusing world
      (wrap "creating main promptConfigMap with winning prompt" (api "conflict")) refl

reconcile_tool_experiment-Atomic_example :
    (reconcile_tool_experiment refusing world).1.agent ≡ agent
unfolding reconcile_tool_experiment tool_experiment_of tool_fetched advance_tool ◌>>=◌
    evaluate_tool_experiment evaluate_tool_from conclude_tool assess collect_variant_scores
    filter_by tool_experiment_min_samples collect_control_scores welch_t_test
    regularized_incomplete_beta promote_tool_experiment
reconcile_tool_experiment-Atomic_example =
    reconcile_tool_experiment-Atomic refusing world
      (wrap "setting ToolExperiment \"without-search\" to Promoted" (api "conflict")) refl

collect_scores-Shared_example :
    Shared 10 evaluations
      (collect_variant_scores evaluations 10)
      (collect_control_scores evaluations 10)
collect_scores-Shared_example = collect_scores-Shared evaluations 10

reconcile_tool_experiment-Concludes_example :
    Concludes "without-search"
      (read Kind.experiment "without-search" ∷ world.log)
      (reconcile_tool_experiment cluster world)
unfolding tool_experiment_of tool_experiment_min_samples collect_variant_scores
    collect_control_scores filter_by
reconcile_tool_experiment-Concludes_example =
    reconcile_tool_experiment-Concludes cluster (λ _ _. refl) world experiment 10 refl refl refl
      refl (refl, refl)

-- The same cluster, with an API server that stores the status of the experiment.
abbrev storing : Env ℤ
storing = record cluster { get_experiment = λ log name. ok (stored cluster.write experiment log) }

one_ne_zero : ◌≢◌ {A = ℕ} 1 0
one_ne_zero e = omega arith

recorded : (reconcile_tool_experiment storing world).1.agent ≢ world.agent
unfolding reconcile_tool_experiment tool_experiment_of tool_fetched advance_tool ◌>>=◌
    evaluate_tool_experiment evaluate_tool_from conclude_tool assess collect_variant_scores
    filter_by tool_experiment_min_samples collect_control_scores welch_t_test
    regularized_incomplete_beta promote_tool_experiment append_tool_lineage append_capped
    increment_optimization_generation
recorded e = one_ne_zero (ap (λ a. length a.status.tool_lineage) e)

reconcile_tool_experiment-once_example :
    (◌≡◌ {A = ℕ} 1 0)
    ⊎ ((◌≡◌ {A = ℕ} 1 1)
        × ¬ (Ended storing experiment world.log)
        × Ended storing experiment (reconcile_tool_experiment storing world).1.log)
unfolding tool_experiment_of
reconcile_tool_experiment-once_example =
    reconcile_tool_experiment-once storing experiment (λ _. refl) refl world
      (reconcile_tool_experiment storing world).1 1 (Run.recording Run.begin refl recorded)
