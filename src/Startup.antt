-- ===== src/Startup.antt =====
-- cmd/main.go: the flags, the options of the manager, and the steps from the manager's creation to its
-- start. The calls of controller-runtime are steps that a parameter answers.
pub mod Order
use agentroll.Prelude.{ℕ, Bool, true, false, String, List, [], ◌∷◌, ◌++◌, is_set, if◌then◌else◌}

-- The command line.
pub record Flags : Type 0 where
  pub metrics_addr : String
  pub probe_addr : String
  pub enable_leader_election : Bool
  pub secure_metrics : Bool
  pub webhook_cert_path : String
  pub webhook_cert_name : String
  pub webhook_cert_key : String
  pub metrics_cert_path : String
  pub metrics_cert_name : String
  pub metrics_cert_key : String
  pub enable_http2 : Bool
  pub enable_webhook : Bool

-- What the flags are when none is given.
abbrev pub default_flags : Flags
default_flags = record {
  metrics_addr = "0";
  probe_addr = ":8081";
  enable_leader_election = false;
  secure_metrics = true;
  webhook_cert_path = "";
  webhook_cert_name = "tls.crt";
  webhook_cert_key = "tls.key";
  metrics_cert_path = "";
  metrics_cert_name = "tls.crt";
  metrics_cert_key = "tls.key";
  enable_http2 = false;
  enable_webhook = false;
}

-- The field of tls.Config that main touches.
pub record TlsConfig : Type 0 where
  pub next_protos : List String

-- `disableHTTP2`.
unfoldable pub disable_http2 : TlsConfig → TlsConfig
disable_http2 c = record c { next_protos = "http/1.1" ∷ [] }

-- `tlsOpts`.
unfoldable pub tls_opts : Bool → List (TlsConfig → TlsConfig)
tls_opts true = []
tls_opts false = disable_http2 ∷ []

-- webhook.Options.
pub record WebhookOptions : Type 0 where
  pub tls_opts : List (TlsConfig → TlsConfig)
  pub cert_dir : String
  pub cert_name : String
  pub key_name : String

-- metricsserver.Options; `authenticated` says that the filter WithAuthenticationAndAuthorization is set.
pub record MetricsOptions : Type 0 where
  pub bind_address : String
  pub secure_serving : Bool
  pub tls_opts : List (TlsConfig → TlsConfig)
  pub authenticated : Bool
  pub cert_dir : String
  pub cert_name : String
  pub key_name : String

-- ctrl.Options.
pub record ManagerOptions : Type 0 where
  pub metrics : MetricsOptions
  pub webhook_server : WebhookOptions
  pub health_probe_bind_address : String
  pub leader_election : Bool
  pub leader_election_id : String

-- `if len(path) > 0`: the certificate's files are set with its directory, or not at all.
abbrev given : String → String → String
given path name = if is_set path then name else ""

unfoldable pub webhook_options : Flags → WebhookOptions
webhook_options f = record {
  tls_opts = tls_opts f.enable_http2;
  cert_dir = f.webhook_cert_path;
  cert_name = given f.webhook_cert_path f.webhook_cert_name;
  key_name = given f.webhook_cert_path f.webhook_cert_key;
}

unfoldable pub metrics_options : Flags → MetricsOptions
metrics_options f = record {
  bind_address = f.metrics_addr;
  secure_serving = f.secure_metrics;
  tls_opts = tls_opts f.enable_http2;
  authenticated = f.secure_metrics;
  cert_dir = f.metrics_cert_path;
  cert_name = given f.metrics_cert_path f.metrics_cert_name;
  key_name = given f.metrics_cert_path f.metrics_cert_key;
}

unfoldable pub manager_options : Flags → ManagerOptions
manager_options f = record {
  metrics = metrics_options f;
  webhook_server = webhook_options f;
  health_probe_bind_address = f.probe_addr;
  leader_election = f.enable_leader_election;
  leader_election_id = "9b586498.agentroll.dev";
}

-- The calls whose error makes main exit.
pub data SetupStep : Type 0 where
  new_manager : ManagerOptions → SetupStep
  setup_reconciler setup_webhook add_healthz_check add_readyz_check start : SetupStep

-- The calls before the start, in their order.
unfoldable pub registrations : Flags → List SetupStep
registrations f =
    new_manager (manager_options f)
    ∷ setup_reconciler
    ∷ ((if f.enable_webhook then setup_webhook ∷ [] else [])
        ++ add_healthz_check ∷ add_readyz_check ∷ [])

-- Each call after the others, newest first, up to the first that fails; and the exit code.
unfoldable pub run_steps :
    (List SetupStep → SetupStep → Bool) → List SetupStep → List SetupStep → List SetupStep × ℕ
run_steps succeeds made [] = (made, 0)
run_steps succeeds made (step ∷ steps) =
    let rest = run_steps succeeds (step ∷ made) steps in
    if succeeds made step then rest else (step ∷ made, 1)

-- main, once the flags are parsed: `succeeds` answers each call, with the calls made before it.
unfoldable pub main : (List SetupStep → SetupStep → Bool) → Flags → List SetupStep × ℕ
main succeeds f = run_steps succeeds [] (registrations f ++ start ∷ [])
