-- ===== src/Tests/Passes.antt =====
-- The theorems on a pass of the reconciler, on the sample cluster.
use agentroll.Prelude.{
  inl, inr, any_of, lookup, ◌≡◌, refl, some, none, List, [], ◌∷◌, String, ◌==◌, if◌then◌else◌,
}
use agentroll.Float.Milli.{ℤ, milli}
use agentroll.Api.{ScalingSpec, QueueReference, AgentDeployment, AgentDeploymentPhase, Condition}
use agentroll.Kube.{Service, Env, Call, Err, Result, ok, err}
use agentroll.Kube.Exec.{World, ◌>>=◌, ◌>>◌}
use agentroll.Kube.Exec.Sends.{Sent}
use agentroll.Dependencies.Agents.{check_agent_dependencies, wait_for, holds_back}
use agentroll.Dependencies.Tools.{
  inject_endpoint, reconcile_tool_dependencies, resolve_declared, resolve_tool, declared_endpoint,
  additional_endpoint, resolve_additional, check_tool_version, deployed_version, settle_endpoint,
}
use agentroll.Experiment.Tool.{active_tool_experiment, active_of, tool_experiment_of}
use agentroll.Reconcile.{
  reconcile, reconcile_fetched, reconcile_live, ensure_finalizer, past_gate, reconcile_resources,
  reconcile_checks, reconcile_learning, reconcile_ready, report, fatal, lenient, settle_fatal,
  settle_lenient,
}
use agentroll.Reconcile.Gate.{Harmless, reconcile-gated}
use agentroll.Reconcile.Requeue.{Delay, reconcile-Delay}
use agentroll.Reconcile.Learning.{reconcile_ready-report}
use agentroll.Reconcile.Tools.{Preliminary, reconcile_resources-guarded}
use agentroll.Rollout.Templates.Managed.{
  reconcile_analysis_template, reconcile_templates, template_names, reconcile_template, is_foreign,
}
use agentroll.Rollout.Steps.{is_managed}
use agentroll.Rollout.Resources.{reconcile_rollout, reconcile_service, reconcile_service_account}
use agentroll.Evaluation.Templates.{
  reconcile_judge_template, judge_for, reconcile_tool_check_template, apply_check,
  reconcile_memory_check_template, memory_check_for,
}
use agentroll.Rollout.Telemetry.{reconcile_otel_config, configure_otel}
use agentroll.Rollout.Pod.{otel_of}
use agentroll.Rollout.Scaling.{reconcile_scaled_object, scale_by}
use agentroll.Rollout.Scaling.Outcome.{Scales, reconcile_scaled_object-Scales}
use agentroll.Reconcile.Circle.{Store, Held, Steps, put, saved, reconcile-Held}
use agentroll.Tests.Samples.{agent, spec, status, world, cluster, search_tool}

abbrev planner : AgentDeployment ℤ
planner = record agent {
  name = "planner";
  status = record status { phase = AgentDeploymentPhase.progressing };
}

abbrev agent_named : String → Result (AgentDeployment ℤ)
agent_named name = if name == "planner" then ok planner else ok agent

-- The agent "planner", which the sample agent depends on, is still progressing.
abbrev planning : Env ℤ
planning = record cluster { get_agent = λ log name. agent_named name }

abbrev add_condition : List Condition → Condition → List Condition
add_condition conditions c = c ∷ conditions

reconcile-gated_example : Sent Harmless world (reconcile add_condition planning "agent" world).1
reconcile-gated_example =
    reconcile-gated add_condition planning world "agent" agent agent_named refl refl
      (λ log other. refl) (λ ready. cc)

waits : (reconcile add_condition planning "agent" world).0 ≡ ok (some 30)
unfolding reconcile reconcile_fetched reconcile_live ensure_finalizer past_gate
    check_agent_dependencies wait_for holds_back any_of ◌>>=◌
waits = refl

reconcile-Delay_example : Delay (some 30) (reconcile add_condition planning "agent" world).1
reconcile-Delay_example =
    reconcile-Delay add_condition planning world "agent" agent (some 30) refl refl waits

-- Two new agents, "agent" and "planner", that depend on each other.
abbrev back : AgentDeployment ℤ
back = record planner { spec = record spec { depends_on = "agent" ∷ [] } }

abbrev waiting : Store ℤ
waiting name =
    if name == "planner"
    then ok back
    else ok (record agent { status = record status { phase = AgentDeploymentPhase.progressing } })

abbrev pair : List String
pair = "agent" ∷ "planner" ∷ []

abbrev asked : Env ℤ
asked = record cluster { get_agent = λ log name. waiting name }

abbrev fresh : World ℤ
fresh = record world { log = [] }

abbrev pass_log : List (Call ℤ)
pass_log = (reconcile add_condition asked "planner" fresh).1.log

abbrev one_pass : Store ℤ
one_pass = put "planner" (ok (saved cluster.write back pass_log)) waiting

reconcile-Held_example : Held pair one_pass
reconcile-Held_example =
    reconcile-Held add_condition pair waiting one_pass
      (
        (refl, refl, "planner", inl refl, inr (inl refl)),
        ((refl, refl, "agent", inl refl, inl refl), tt),
      )
      (Steps.pass Steps.begin "planner" (inr (inl refl)) back refl asked (λ log other. refl) fresh
        refl)

abbrev jobs : QueueReference
jobs = record { provider = "sqs"; address = "https://sqs/jobs"; queue_name = "jobs" }

abbrev queued : ScalingSpec
queued = record {
  min_replicas = 1;
  max_replicas = 3;
  metric = "queue-depth";
  target_value = 5;
  queue_ref = some jobs;
}

abbrev scaled : World ℤ
scaled = record world { agent = record agent { spec = record spec { scaling = some queued } } }

reconcile_scaled_object-Scales_example :
    Scales cluster scaled scaled.agent queued jobs (reconcile_scaled_object cluster scaled)
reconcile_scaled_object-Scales_example =
    reconcile_scaled_object-Scales cluster scaled queued jobs refl refl

-- The agent needs version 2 of a tool, and version 1 is deployed.
abbrev pinned : World ℤ
pinned = record world {
  agent = record agent {
    spec = record spec {
      agent_meta = record spec.agent_meta {
        tool_dependencies = record search_tool { version = "2" } ∷ [];
      };
      evolution = none;
    };
  };
}

abbrev outdated : Env ℤ
outdated = record cluster {
  get_service = λ log name. ok (record {
    name = name;
    annotations = [];
    labels = ("app.kubernetes.io/version", "1") ∷ [];
    selector = [];
    ports = [];
  });
}

abbrev search_service : String → Result Service
search_service name = ok (record {
  name = name;
  annotations = [];
  labels = ("app.kubernetes.io/version", "1") ∷ [];
  selector = [];
  ports = [];
})

reconcile_resources-guarded_example :
    ((e : Err) × ((reconcile_resources outdated "p1.m1.v3" pinned).0 ≡ err e))
    × Sent Preliminary pinned (reconcile_resources outdated "p1.m1.v3" pinned).1
unfolding tool_experiment_of deployed_version lookup
reconcile_resources-guarded_example =
    reconcile_resources-guarded outdated "p1.m1.v3" pinned (record search_tool { version = "2" })
      search_service (λ log name. refl) refl (inl refl) refl (refl, refl, refl, refl, refl)

-- On the cluster the sample agent has no Rollout yet.
clean : ((reconcile_checks cluster >> reconcile_resources cluster "p1.m1.v3") world).0 ≡ ok tt
unfolding reconcile_checks reconcile_resources fatal lenient settle_fatal settle_lenient ◌>>=◌
    reconcile_analysis_template reconcile_templates template_names any_of reconcile_template
    is_managed is_foreign lookup reconcile_judge_template judge_for reconcile_tool_check_template
    apply_check reconcile_memory_check_template memory_check_for reconcile_otel_config
    configure_otel otel_of reconcile_tool_dependencies resolve_declared resolve_additional
    resolve_tool declared_endpoint additional_endpoint check_tool_version deployed_version
    settle_endpoint active_tool_experiment active_of tool_experiment_of reconcile_service_account
    reconcile_rollout reconcile_service reconcile_scaled_object scale_by inject_endpoint
clean = refl

reconcile_ready-report_example :
    reconcile_ready add_condition cluster "p1.m1.v3" world
    ≡ report add_condition cluster "p1.m1.v3"
        (reconcile_learning cluster "p1.m1.v3"
          ((reconcile_checks cluster >> reconcile_resources cluster "p1.m1.v3") world).1).1
reconcile_ready-report_example = reconcile_ready-report add_condition cluster "p1.m1.v3" world clean
