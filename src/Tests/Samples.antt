-- ===== src/Tests/Samples.antt =====
-- A small cluster: an agent with an evaluation history, one experiment of each kind, and an API server
-- that answers every question in one way.
use agentroll.Prelude.{◌<>◌, ℕ, true, false, ◌==◌, none, some, List, [], ◌∷◌}
use agentroll.Float.Milli.{ℤ, pos, milli}
use agentroll.Api.{
  AgentDeployment, AgentDeploymentSpec, AgentDeploymentStatus, AgentDeploymentPhase,
  ExperimentPhase, ExperimentStatus, PromptVariant, ToolExperiment, ToolDependency, EvolutionSpec,
  EvalHistoryEntry, RolloutStep, Outcome, PromptLineageEntry,
}
use agentroll.Kube.{Env, ok, err, not_found, api, AnalysisTemplate, Codec}
use agentroll.Kube.Exec.{World}

abbrev pub score : ℕ → ℕ → EvalHistoryEntry ℤ
score at quality = record {
  at = at;
  composite_version = "v1";
  quality_score = pos quality;
  verdict = "pass";
}

-- Two evaluations before the experiments start at time 10, and two after.
abbrev pub evaluations : List (EvalHistoryEntry ℤ)
evaluations = score 1 100 ∷ score 2 200 ∷ score 11 900 ∷ score 12 800 ∷ []

abbrev pub search_tool : ToolDependency
search_tool = record { name = "web-search"; version = ""; endpoint = "" }

abbrev pub judge_step : RolloutStep
judge_step = record {
  set_weight = 20;
  pause = some (record { duration = "5m" });
  analysis = some (record { template_ref = "agent-quality-check" });
}

abbrev pub plain_step : RolloutStep
plain_step = record { set_weight = 100; pause = none; analysis = none }

abbrev pub evolution : EvolutionSpec
evolution = record {
  enabled = true;
  strategy = "prompt";
  trigger = "schedule";
  schedule = "@daily";
  consecutive_canaries_for_plateau = none;
  optimizer = none;
  human_approval = none;
  prompt_config_map = "agent-prompt";
  prompt_experiment = "shorter";
  prompt_experiment_min_samples = some 2;
  tool_experiment = "without-search";
  tool_experiment_min_samples = some 2;
}

abbrev pub spec : AgentDeploymentSpec
spec = record {
  container = record {
    image = "registry/agent:v3";
    env = [];
    resources = none;
    ports = [];
    command = [];
    args = [];
  };
  agent_meta = record {
    prompt_version = "p1";
    model_version = "m1";
    model_provider = "";
    tool_dependencies = search_tool ∷ search_tool ∷ [];
    labels = [];
  };
  rollout = record { strategy = "canary"; steps = judge_step ∷ plain_step ∷ [] };
  rollback =
      some (record {
        on_failed_analysis = true;
        on_cost_spike = some (record { threshold = "200%" });
      });
  observability = none;
  scaling = none;
  service_account_name = "";
  replicas = none;
  depends_on = "planner" ∷ [];
  evolution = some evolution;
  evaluation = none;
  memory = none;
}

abbrev pub promotion : ℕ → PromptLineageEntry ℤ
promotion at = record {
  variant_name = "shorter";
  parent_version = "p0";
  hypothesis = "";
  variant_mean = pos 900;
  control_mean = pos 100;
  p_value = pos 0;
  outcome = Outcome.promoted;
  at = at;
}

abbrev pub status : AgentDeploymentStatus ℤ
status = record {
  phase = AgentDeploymentPhase.stable;
  stable_version = "p0.m1";
  canary_version = "";
  canary_weight = 0;
  conditions = [];
  observed_generation = 1;
  evolution = none;
  eval_history = evaluations;
  prompt_lineage = promotion 5 ∷ [];
  tool_lineage = [];
  memory = none;
}

abbrev pub agent : AgentDeployment ℤ
agent = record {
  name = "agent";
  namespace = "default";
  generation = 1;
  deleting = false;
  finalizers = [];
  spec = spec;
  status = status;
}

abbrev pub world : World ℤ
world = record { agent = agent; events = []; log = [] }

abbrev pub testing_status : ExperimentStatus ℤ
testing_status = record {
  phase = ExperimentPhase.testing;
  experiment_started_at = some 10;
  variant_scores = [];
  variant_mean_score = pos 0;
  control_mean_score = pos 0;
  p_value = pos 0;
  message = "";
  promoted_at = none;
  rejected_at = none;
}

abbrev pub variant : PromptVariant ℤ
variant = record {
  name = "shorter";
  namespace = "default";
  spec = record {
    agent_deployment_ref = "agent";
    system_prompt = "Be brief.";
    parent_version = "p1";
    hypothesis = "";
  };
  status = testing_status;
}

abbrev pub experiment : ToolExperiment ℤ
experiment = record {
  name = "without-search";
  namespace = "default";
  spec = record {
    agent_deployment_ref = "agent";
    additional_tools = search_tool ∷ [];
    removed_tools = [];
    parent_tools_hash = "";
    hypothesis = "";
  };
  status = testing_status;
}

abbrev pub their_template : AnalysisTemplate
their_template = record {
  name = "agent-quality-check";
  labels = [];
  spec = record {
    args = [];
    metric = "";
    interval = "";
    count = none;
    failure_limit = none;
    container = "";
    image = "";
    env = [];
  };
}

-- Decoders that find one score of every kind in any body.
abbrev pub codec : Codec ℤ
codec = record {
  judge_scores = λ body.
      some
        (record { value = pos 900; comment = "judged cv=p1.m1.v3 ok"; created_at = "noon" } ∷ []);
  scores = λ body. some (("avg_latency", pos 900) ∷ []);
  traces = λ body. some [];
  text_blocks = λ body. some (("text", "Be kind.") ∷ []);
  choices = λ body. some ("Be kind." ∷ []);
  object_sha = λ body. some "0a1b";
  html_url = λ body. some "https://github.com/o/r/pull/1";
  decode_error = "unexpected end of JSON input";
  url_error = λ url. none;
  with_query = λ url key value. url <> "?" <> key <> "=" <> value;
  base64 = λ s. s;
  parse_time = λ s. none;
  rfc3339 = λ at. "2026-01-01T00:00:00Z";
  compact_time = λ at. "20260101-000000";
}

-- Writes succeed, the agents are Stable, the experiments are in Testing, and the tools' Services have
-- no ports.
abbrev pub cluster : Env ℤ
cluster = record {
  now = 20;
  write = λ log call. ok tt;
  get_agent = λ log name. ok agent;
  get_rollout = λ log name. err (not_found "not found");
  get_template = λ log name. ok their_template;
  get_config_map = λ log name. err (not_found "not found");
  get_secret = λ log name. err (not_found "not found");
  get_service = λ log name.
      ok (record { name = name; annotations = []; labels = []; selector = []; ports = [] });
  get_variant = λ log name. ok variant;
  get_experiment = λ log name. ok experiment;
  list_replica_sets = λ log hash. ok [];
  list_analysis_runs = λ log name. ok [];
  send = λ log request. ok (record { status = 200; body = request.url; unread = none });
  codec = codec;
  patched = λ log b. b;
  constraint_ok = λ constraint. true;
  version_ok = λ version. true;
  check_version = λ constraint version. constraint == version;
  digest_prefix = λ s. "00000000";
}

-- The same cluster while the API server refuses every write.
abbrev pub refusing : Env ℤ
refusing = record cluster { write = λ log call. err (api "conflict") }
