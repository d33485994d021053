-- ===== src/Tests/Evolutions.antt =====
-- The theorems on the evolution loop, on the sample cluster.
use agentroll.Prelude.{
  ◌≡◌, refl, arith, some, [], ◌∷◌, ◌++◌, List, String, lookup, map, keep_last, ℕ, decimal,
  trim_space, trim_newlines,
}
use agentroll.Float.Milli.{ℤ, milli}
use agentroll.Api.{AgentDeploymentPhase, EvolutionSpec, EvolutionOptimizerSpec}
use agentroll.Kube.{Env, ok, AnalysisRun, Measurement, successful, failed_run}
use agentroll.Kube.Exec.{World, ◌>>=◌}
use agentroll.Kube.Exec.Sends.{Sent}
use agentroll.History.{max_evolution_history}
use agentroll.Scorecard.{evolution_or_new}
use agentroll.Evolution.Loop.{with_proposals, reconcile_evolution}
use agentroll.Evolution.Triggers.{Fires}
use agentroll.Evolution.Permitted.{Permitted}
use agentroll.Evolution.Approval.{reconcile_evolution-Permitted}
use agentroll.Evolution.Thresholds.{
  after_tuning, thresholds_of, updated, tuned_from, store_thresholds-tuned,
}
use agentroll.Evolution.Numbers.{numbers}
use agentroll.Evolution.Dspy.{
  reconcile_dspy_optimizer, previous_is_active, optimize_dspy, create_dspy_prompt_variant,
  wire_dspy_variant, after_patch, dspy_variant_name, build_dspy_examples, dspy_user_message,
  example_lines, prompt_in, read_current_system_prompt, verdict_of,
}
use agentroll.Evolution.Llm.{call_llm, call_anthropic, first_text, anthropic_request}
use agentroll.Langfuse.{read_secret_key, secret_value, exchange, body_of, decoded}
use agentroll.Evolution.Wiring.{Answers-refl, Wired, reconcile_dspy_optimizer-Wired}
use agentroll.Evolution.Record.{entry_of, with_proposals-newest}
use agentroll.Tests.Samples.{agent, spec, status, world, cluster, evolution, evaluations, score}

abbrev measured : String → Measurement
measured value = record { value = value; message = "" }

abbrev run : String → ℕ → AnalysisRun
run name at = record {
  name = name;
  created_at = at;
  phase = successful;
  metric_results =
      record {
        name = "quality";
        phase = successful;
        measurements = measured "0.2" ∷ measured "0.2" ∷ [];
      }
      ∷ [];
}

abbrev runs : List AnalysisRun
runs = run "first" 3 ∷ run "second" 8 ∷ run "third" 5 ∷ []

abbrev dspy : EvolutionOptimizerSpec
dspy = record { model = "m2"; provider = ""; secret_ref = "key"; mode = "dspy" }

-- All strategies, on a canary that has failed, with an optimizer in the mode "dspy".
abbrev optimizing : EvolutionSpec
optimizing = record evolution {
  strategy = "";
  trigger = "both";
  prompt_experiment = "";
  optimizer = some dspy;
}

abbrev degraded : World ℤ
degraded = record world {
  agent = record agent {
    spec = record spec { evolution = some optimizing };
    status = record status { phase = AgentDeploymentPhase.degraded };
  };
}

abbrev measuring : Env ℤ
measuring = record cluster { list_analysis_runs = λ log name. ok runs }

reconcile_evolution-Permitted_example :
    Sent
      (λ call.
        Fires optimizing 20 AgentDeploymentPhase.degraded degraded.agent.status.evolution
        × Permitted optimizing AgentDeploymentPhase.degraded call)
      degraded
      (reconcile_evolution measuring degraded).1
reconcile_evolution-Permitted_example =
    reconcile_evolution-Permitted measuring degraded optimizing refl

-- A run that has failed, after the others.
abbrev mixed : List AnalysisRun
mixed = runs ++ record (run "fourth" 9) { phase = failed_run } ∷ []

store_thresholds-tuned_example :
    lookup "quality" (after_tuning mixed agent)
    ≡ updated
        (lookup "quality" (thresholds_of agent))
        (tuned_from {F = ℤ} "quality" (numbers "quality" mixed))
store_thresholds-tuned_example = store_thresholds-tuned "quality" mixed agent

with_proposals-newest_example :
    (evolution_or_new
      (with_proposals 20 AgentDeploymentPhase.degraded
        ("model-upgrader: PR opened" ∷ [])
        agent).status.evolution).history
    ≡ keep_last max_evolution_history (
        (evolution_or_new agent.status.evolution).history
        ++ map (entry_of 20 AgentDeploymentPhase.degraded) ("model-upgrader: PR opened" ∷ []))
with_proposals-newest_example =
    with_proposals-newest 20 AgentDeploymentPhase.degraded ("model-upgrader: PR opened" ∷ []) agent
      (omega arith)

-- Enough evaluations for the DSPy optimizer, and a Secret with the key of the model.
abbrev trained : World ℤ
trained = record world {
  agent = record agent {
    spec = record spec { evolution = some optimizing };
    status = record status { eval_history = score 13 700 ∷ evaluations };
  };
}

abbrev keyed : Env ℤ
keyed = record cluster {
  get_secret =
      λ log name. ok (record { name = name; labels = []; entries = ("API_KEY", "k") ∷ [] });
}

abbrev proposed : EvolutionSpec
proposed = record optimizing { prompt_experiment = "agent-dspy-0" }

reconcile_dspy_optimizer-Wired_example :
    Wired keyed proposed (reconcile_dspy_optimizer keyed optimizing dspy trained).1
    × (reconcile_dspy_optimizer cluster proposed dspy degraded ≡ (ok "", degraded))
unfolding reconcile_dspy_optimizer ◌>>=◌ previous_is_active optimize_dspy read_secret_key
    secret_value lookup call_llm call_anthropic exchange body_of decoded first_text
    create_dspy_prompt_variant wire_dspy_variant after_patch dspy_variant_name build_dspy_examples
    dspy_user_message example_lines prompt_in read_current_system_prompt verdict_of
    anthropic_request decimal trim_space trim_newlines
reconcile_dspy_optimizer-Wired_example =
    reconcile_dspy_optimizer-Wired keyed cluster optimizing proposed dspy dspy trained degraded
      "dspy-optimizer: created PromptVariant \"agent-dspy-0\" from 5 samples"
      (λ log a. (refl, Answers-refl a.spec.evolution)) refl refl refl
