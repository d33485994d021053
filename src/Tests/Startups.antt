-- ===== src/Tests/Startups.antt =====
-- The theorem on the start of the manager, with the webhook enabled.
use agentroll.Prelude.{false, ◌≡◌, Bool, true, List, [], ◌∷◌}
use agentroll.Startup.{Flags, default_flags, SetupStep, main, manager_options, TlsConfig}
use agentroll.Startup.Order.{Ending, registered_last_first, spoken, main-start}

abbrev admitting : Flags
admitting = record default_flags { enable_webhook = true }

abbrev always : List SetupStep → SetupStep → Bool
always made step = true

abbrev modern : TlsConfig
modern = record { next_protos = "h2" ∷ "http/1.1" ∷ [] }

main-start_example :
    Ending always (registered_last_first admitting) (main always admitting)
    × ((manager_options admitting).leader_election ≡ false)
    × ((manager_options admitting).health_probe_bind_address ≡ ":8081")
    × ((manager_options admitting).metrics.bind_address ≡ "0")
    × (spoken (manager_options admitting).webhook_server.tls_opts modern ≡ "http/1.1" ∷ [])
    × (spoken (manager_options admitting).metrics.tls_opts modern ≡ "http/1.1" ∷ [])
main-start_example = main-start always admitting modern
