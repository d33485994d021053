-- ===== src/Evolution/Permitted.antt =====
-- What the evolution loop may send; and that its calls of Langfuse, GitHub and the model are such.
use agentroll.Prelude.{ℕ, ◌≡◌, true, false, String, Option, none, some, List, [], ◌∷◌, is_set, ◌==◌}
use agentroll.Api.{
  AgentDeployment, AgentDeploymentPhase, EvolutionSpec, EvolutionOptimizerSpec, GitHubSpec,
  LangfuseSpec,
}
use agentroll.Kube.{
  Env, Call, read, http, create_config_map, update_config_map, create_variant,
  patch_prompt_experiment, HttpRequest, Method, Payload,
}
use agentroll.Kube.Exec.Sends.{Sends, sends_rules}
use agentroll.Langfuse.{secret_value, read_secret_key, exchange, body_of, decoded, langfuse_get}
use agentroll.Evolution.Fetch.{fetch_langfuse_scores, fetch_langfuse_failing_traces}
use agentroll.Evolution.Tuner.{list_runs}
use agentroll.Evolution.Triggers.{Failing, Runs}
use agentroll.Evolution.Llm.{
  Question, first_text, call_anthropic, first_choice, call_openai, call_llm,
}
use agentroll.Evolution.GitHub.{
  github_of, below_300, github_do, github_get_branch_sha, github_create_branch, github_create_file,
  github_create_pr, open_evolution_pr,
}

-- The optimizer of the spec works in the mode "dspy".
abbrev pub IsDspy : EvolutionSpec → Type 0
IsDspy ev =
    (optimizer : EvolutionOptimizerSpec) × (ev.optimizer ≡ some optimizer)
    × ((optimizer.mode == "dspy") ≡ true)

-- The prompt may be worked on: the canary is failing, and the strategy is among those of the spec.
abbrev pub Prompts : EvolutionSpec → AgentDeploymentPhase → Type 0
Prompts ev phase = Failing phase × Runs ev "prompt-optimizer"

-- What a pass may send, at the phase of the agent. It reads and it talks to Langfuse, GitHub and the
-- model. It writes a ConfigMap only while the prompt may be worked on and no repository is named for human
-- approval, and creates the ConfigMap of the spec only. It creates a PromptVariant and turns on an
-- experiment only in the mode "dspy", while the prompt may be worked on and no experiment is on.
abbrev pub Permitted : {F : Type 0} → EvolutionSpec → AgentDeploymentPhase → Call F → Type 0
Permitted ev phase (read kind name) = Unit
Permitted ev phase (http r) = Unit
Permitted ev phase (create_config_map cm) =
    Prompts ev phase × (github_of ev.human_approval ≡ none) × (cm.name ≡ ev.prompt_config_map)
Permitted ev phase (update_config_map cm) = Prompts ev phase × (github_of ev.human_approval ≡ none)
Permitted ev phase (create_variant name labels spec) =
    Prompts ev phase × IsDspy ev × (is_set ev.prompt_experiment ≡ false)
Permitted ev phase (patch_prompt_experiment name) =
    Prompts ev phase × IsDspy ev × (is_set ev.prompt_experiment ≡ false)
Permitted ev phase _ = ⊥

module _ {F : Type 0} (env : Env F) (ev : EvolutionSpec) (phase : AgentDeploymentPhase) where
  abbrev Q : Call F → Type 0
  Q = Permitted ev phase

  pub secret_value-Q :
      (namespace name key : String) (o : Option String)
      → Sends Q (secret_value env namespace name key o)
  unfolding secret_value
  secret_value-Q namespace name key none = search sends_rules
  secret_value-Q namespace name key (some v) = search sends_rules

  pub read_secret_key-Q :
      (namespace name key : String) → Sends Q (read_secret_key env namespace name key)
  unfolding read_secret_key
  read_secret_key-Q namespace name key = search (sends_rules, secret_value-Q) depth 10

  pub exchange-Q : (r : HttpRequest) → Sends Q (exchange env r)
  unfolding exchange
  exchange-Q r = search sends_rules

  pub decoded-Q : {A : Type 0} (o : Option A) → Sends Q (decoded env o)
  unfolding decoded
  decoded-Q none = search sends_rules
  decoded-Q (some a) = search sends_rules

  pub langfuse_get-Q :
      (a : AgentDeployment F) (lf : LangfuseSpec) (path : String)
      (message : String → ℕ → String → String)
      → Sends Q (langfuse_get env a lf path message)
  unfolding langfuse_get body_of
  langfuse_get-Q a lf path message = search (sends_rules, read_secret_key-Q, exchange-Q) depth 14

  pub scores-Q :
      (a : AgentDeployment F) (lf : LangfuseSpec) → Sends Q (fetch_langfuse_scores env a lf)
  unfolding fetch_langfuse_scores
  scores-Q a lf = search (sends_rules, langfuse_get-Q, decoded-Q) depth 14

  pub traces-Q :
      (a : AgentDeployment F) (lf : LangfuseSpec) → Sends Q (fetch_langfuse_failing_traces env a lf)
  unfolding fetch_langfuse_failing_traces
  traces-Q a lf = search (sends_rules, langfuse_get-Q, decoded-Q) depth 14

  pub list_runs-Q : Sends Q (list_runs env)
  unfolding list_runs
  list_runs-Q = search sends_rules depth 10

  first_text-Q : (blocks : List (String × String)) → Sends Q (first_text env blocks)
  unfolding first_text
  first_text-Q [] = search sends_rules
  first_text-Q (b ∷ blocks) = search (sends_rules, first_text-Q blocks) depth 8

  first_choice-Q : (choices : List String) → Sends Q (first_choice env choices)
  unfolding first_choice
  first_choice-Q [] = search sends_rules
  first_choice-Q (c ∷ choices) = search sends_rules

  anthropic-Q : (q : Question) → Sends Q (call_anthropic env q)
  unfolding call_anthropic body_of
  anthropic-Q q = search (sends_rules, exchange-Q, decoded-Q, first_text-Q) depth 14

  openai-Q : (q : Question) → Sends Q (call_openai env q)
  unfolding call_openai body_of
  openai-Q q = search (sends_rules, exchange-Q, decoded-Q, first_choice-Q) depth 14

  pub call_llm-Q : (provider : String) (q : Question) → Sends Q (call_llm env provider q)
  unfolding call_llm
  call_llm-Q provider q = search (sends_rules, anthropic-Q, openai-Q) depth 10

  github_do-Q :
      (method : Method) (url : String) (payload : Payload) (token : String)
      → Sends Q (github_do env method url payload token)
  unfolding github_do below_300
  github_do-Q method url payload token = search (sends_rules, exchange-Q) depth 12

  pub open_pr-Q :
      (gh : GitHubSpec) (strategy content : String)
      → Sends Q (open_evolution_pr env gh strategy content)
  unfolding open_evolution_pr github_get_branch_sha github_create_branch github_create_file
      github_create_pr
  open_pr-Q gh strategy content =
      search (sends_rules, read_secret_key-Q, github_do-Q, decoded-Q) depth 20
