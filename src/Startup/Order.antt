-- ===== src/Startup/Order.antt =====
-- What has been done when the manager starts, and when main exits.
use std.Path.{subst}
use agentroll.Prelude.{
  String, if◌then◌else◌, ◌≡◌, ◌≢◌, refl, ◌↔◌, ◌⊎◌, ℕ, inl, inr, Bool, true, List, [], ◌∷◌, ◌++◌,
  All, Bool-cases, if-elim, arith,
}
use agentroll.Startup.{
  Flags, SetupStep, new_manager, setup_reconciler, setup_webhook, add_healthz_check,
  add_readyz_check, start, registrations, run_steps, main, manager_options, webhook_options,
  metrics_options, tls_opts, disable_http2, TlsConfig,
}

-- Every one of these calls, newest first, has succeeded.
abbrev pub Succeeded : (List SetupStep → SetupStep → Bool) → List SetupStep → Type 0
Succeeded succeeds [] = Unit
Succeeded succeeds (step ∷ made) = (succeeds made step ≡ true) × Succeeded succeeds made

-- These steps after the others, newest first.
abbrev pub onto : List SetupStep → List SetupStep → List SetupStep
onto [] made = made
onto (step ∷ steps) made = onto steps (step ∷ made)

-- The registrations of the flags, newest first.
abbrev pub registered_last_first : Flags → List SetupStep
registered_last_first f =
    add_readyz_check
    ∷ add_healthz_check
    ∷ ((if f.enable_webhook then setup_webhook ∷ [] else [])
        ++ setup_reconciler ∷ new_manager (manager_options f) ∷ [])

order_lem : (f : Flags) → onto (registrations f) [] ≡ registered_last_first f
unfolding registrations
order_lem f =
    if-elim
      (λ l.
        onto
          (new_manager (manager_options f)
            ∷ setup_reconciler
            ∷ (l ++ add_healthz_check ∷ add_readyz_check ∷ []))
          []
        ≡ add_readyz_check
          ∷ add_healthz_check
          ∷ (l ++ setup_reconciler ∷ new_manager (manager_options f) ∷ []))
      f.enable_webhook (setup_webhook ∷ []) [] (λ _. refl) (λ _. refl)

-- The protocols of a server's configuration after its options.
abbrev configured : List (TlsConfig → TlsConfig) → TlsConfig → TlsConfig
configured [] c = c
configured (opt ∷ opts) c = configured opts (opt c)

abbrev pub spoken : List (TlsConfig → TlsConfig) → TlsConfig → List String
spoken opts c = (configured opts c).next_protos

abbrev pub protos : Flags → TlsConfig → List String
protos f c = if f.enable_http2 then c.next_protos else "http/1.1" ∷ []

spoken_lem : (f : Flags) (c : TlsConfig) → spoken (tls_opts f.enable_http2) c ≡ protos f c
unfolding tls_opts disable_http2
spoken_lem f c = elim (Bool-cases f.enable_http2) [ inl on ↦ rw on refl | inr off ↦ rw off refl ]

module _ (succeeds : List SetupStep → SetupStep → Bool) where
  -- What may come of the steps and the start after them: the start is the last call, after every step has
  -- succeeded, and its answer decides the exit code; or a step has failed, and no start is made.
  abbrev pub Ending : List SetupStep → List SetupStep × ℕ → Type 0
  Ending before (log, exit) =
      ((log ≡ start ∷ before)
        × Succeeded succeeds before
        × ((exit ≡ 0) ↔ (succeeds before start ≡ true)))
      ⊎ (All (λ step. step ≢ start) log × (exit ≡ 1))

  start-Ending :
      (made : List SetupStep)
      → Succeeded succeeds made
      → Ending made (run_steps succeeds made (start ∷ []))
  unfolding run_steps
  start-Ending made done = elim (Bool-cases (succeeds made start)) [
    | inl e ↦ rw e (inl (refl, done, ((λ _. refl), (λ _. refl))))
    | inr e ↦ rw e (inl (refl, done, ((λ h. absurd (omega arith)), (λ h. cc))))
  ]

  run_steps-Ending :
      (steps made : List SetupStep)
      → All (λ step. step ≢ start) steps
      → All (λ step. step ≢ start) made
      → Succeeded succeeds made
      → Ending (onto steps made) (run_steps succeeds made (steps ++ start ∷ []))
  unfolding run_steps
  run_steps-Ending [] made _ _ done = start-Ending made done
  run_steps-Ending (step ∷ steps) made (ne, nes) others done =
      elim (Bool-cases (succeeds made step)) [
        | inl e ↦ rw e (run_steps-Ending steps (step ∷ made) nes (ne, others) (e, done))
        | inr e ↦ rw e (inr ((ne, others), refl))
      ]

  registered : (f : Flags) → All (λ step. step ≢ start) (registrations f)
  unfolding registrations
  registered f =
      if-elim
        (λ l.
          All (λ step. step ≢ start)
            (new_manager (manager_options f)
              ∷ setup_reconciler
              ∷ (l ++ add_healthz_check ∷ add_readyz_check ∷ [])))
        f.enable_webhook (setup_webhook ∷ []) []
        (λ _. ((λ d. cc), ((λ d. cc), ((λ d. cc), ((λ d. cc), ((λ d. cc), tt))))))
        (λ _. ((λ d. cc), ((λ d. cc), ((λ d. cc), ((λ d. cc), tt)))))

  -- Either main makes every registration, in its order, each of them succeeds, the start of the manager is
  -- the last call, and main exits with 0 if and only if it succeeds; or main never starts the manager and
  -- exits with 1. The registrations are the manager, the reconciler, the webhook where it is enabled, and
  -- the two health checks. The manager has the addresses and the leader election of the flags, and both
  -- its servers speak HTTP/1.1 only, unless HTTP/2 is enabled.
  pub main-start :
      (f : Flags) (c : TlsConfig)
      → Ending (registered_last_first f) (main succeeds f)
        × ((manager_options f).leader_election ≡ f.enable_leader_election)
        × ((manager_options f).health_probe_bind_address ≡ f.probe_addr)
        × ((manager_options f).metrics.bind_address ≡ f.metrics_addr)
        × (spoken (manager_options f).webhook_server.tls_opts c ≡ protos f c)
        × (spoken (manager_options f).metrics.tls_opts c ≡ protos f c)
  unfolding main registrations manager_options webhook_options metrics_options
  main-start f c = (
    subst (λ l. Ending l (main succeeds f)) (order_lem f)
        (run_steps-Ending (registrations f) [] (registered f) tt tt),
    refl,
    refl,
    refl,
    spoken_lem f c,
    spoken_lem f c,
  )
