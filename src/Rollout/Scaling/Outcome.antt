-- ===== src/Rollout/Scaling/Outcome.antt =====
-- What a pass over the ScaledObject writes, and when it fails.
use agentroll.Prelude.{
  arith, ◌≡◌, ◌≢◌, refl, ◌↔◌, ◌⊎◌, inl, inr, Bool, true, false, ◌||◌, String, ◌==◌, eq_iff,
  contains, some, ◌∷◌, Bool-cases, ℕ, sym,
}
use std.Path.{subst}
use agentroll.Api.{AgentDeployment, ScalingSpec, QueueReference}
use agentroll.Kube.{
  Env, Err, Result, ok, err, error_text, is_not_found, apply_scaled_object, KedaTrigger,
  ScaledObject,
}
use agentroll.Kube.Exec.{World, pure, raise, ◌>>=◌}
use agentroll.Rollout.Scaling.{
  is_no_crd_error, build_keda_trigger, desired_scaled_object, settle_scaled_object, apply_trigger,
  scale_on, scale_by, reconcile_scaled_object,
}

-- The write succeeded, or failed as it does where KEDA is not installed.
abbrev pub Tolerated : Result (Unit {0}) → Type 0
Tolerated (ok _) = Unit
Tolerated (err e) =
    (is_not_found e ≡ true)
    ⊎ (contains "no kind is registered" (error_text e) ≡ true)
    ⊎ (contains "no matches for kind" (error_text e) ≡ true)
    ⊎ (contains "resource type not known" (error_text e) ≡ true)

-- The triggers of KEDA for the providers of queues.
abbrev pub Triggers : String → String → Type 0
Triggers provider kind =
    ((provider ≡ "redis") × (kind ≡ "redis"))
    ⊎ ((provider ≡ "rabbitmq") × (kind ≡ "rabbitmq"))
    ⊎ ((provider ≡ "sqs") × (kind ≡ "aws-sqs-queue"))

abbrev pub Unsupported : String → Type 0
Unsupported provider = (provider ≢ "redis") × (provider ≢ "rabbitmq") × (provider ≢ "sqs")

differs : (s t : String) → (s == t) ≡ false → s ≢ t
differs s t h = λ same. let d = (eq_iff s t).1 same in cc

build-Triggers :
    (queue : QueueReference) (target : ℕ)
    → ((t : KedaTrigger) × (build_keda_trigger queue target ≡ ok t)
        × Triggers queue.provider t.kind)
      ⊎ ((e : Err) × (build_keda_trigger queue target ≡ err e) × Unsupported queue.provider)
unfolding build_keda_trigger
build-Triggers queue target = elim (Bool-cases (queue.provider == "redis")) [
  | inl a ↦ rw a (inl (_, refl, inl ((eq_iff queue.provider "redis").0 a, refl)))
  | inr a ↦ elim (Bool-cases (queue.provider == "rabbitmq")) [
    | inl b ↦ rw (a, b) (inl (_, refl, inr (inl ((eq_iff queue.provider "rabbitmq").0 b, refl))))
    | inr b ↦ elim (Bool-cases (queue.provider == "sqs")) [
      | inl c ↦ rw (a, b, c) (inl (_, refl, inr (inr ((eq_iff queue.provider "sqs").0 c, refl))))
      | inr c ↦
          rw (a, b, c)
            (inr (
              _,
              refl,
              (differs queue.provider _ a, differs queue.provider _ b, differs queue.provider _ c),
            ))
    ]
  ]
]

or_lem :
    (a b c d : Bool)
    → ((a || (b || c || d)) ≡ true) ↔ ((a ≡ true) ⊎ (b ≡ true) ⊎ (c ≡ true) ⊎ (d ≡ true))
or_lem a b c d = ground arith

module _ {F : Type 0} (env : Env F) (w : World F) where
  settled-Tolerated :
      (r : Result (Unit {0})) (v : World F)
      → (((settle_scaled_object env r v).0 ≡ ok tt) ↔ Tolerated r)
        × ((settle_scaled_object env r v).1.log ≡ v.log)
  unfolding settle_scaled_object pure raise is_no_crd_error
  settled-Tolerated (ok _) v = (((λ _. tt), (λ _. refl)), refl)
  settled-Tolerated (err e) v =
      let tests =
        or_lem (is_not_found e) (contains "no kind is registered" (error_text e))
          (contains "no matches for kind" (error_text e))
          (contains "resource type not known" (error_text e)) in
      elim (Bool-cases (is_not_found e || is_no_crd_error e)) [
        | inl d ↦ rw d (((λ _. tests.0 d), (λ _. refl)), refl)
        | inr d ↦ rw d (((λ h. cc), (λ t. absurd (not_both (tests.1 t) d))), refl)
      ]
    where
      not_both : {b : Bool} → b ≡ true → b ≡ false → ⊥
      not_both t f = cc

  -- The object is written for the Rollout of the agent, with the range of the spec and a trigger for the
  -- provider, and that is an error unless it is tolerated; or the provider has no trigger, nothing is
  -- written, and that is an error.
  abbrev pub Scales :
      AgentDeployment F → ScalingSpec → QueueReference → Result (Unit {0}) × World F → Type 0
  Scales a s queue (r, w') =
      ((so : ScaledObject) × (w'.log ≡ apply_scaled_object so ∷ w.log)
        × ((r ≡ ok tt) ↔ Tolerated (env.write w.log (apply_scaled_object so)))
        × (so.target ≡ a.name)
        × (so.min_replica_count ≡ s.min_replicas)
        × (so.max_replica_count ≡ s.max_replicas)
        × Triggers queue.provider so.trigger.kind)
      ⊎ (Unsupported queue.provider × (w'.log ≡ w.log) × ((e : Err) × (r ≡ err e)))

  apply_trigger-Scales :
      (a : AgentDeployment F) (s : ScalingSpec) (queue : QueueReference) (t : KedaTrigger)
      → Triggers queue.provider t.kind
      → Scales a s queue (apply_trigger env a s queue (ok t) w)
  unfolding apply_trigger desired_scaled_object ◌>>=◌
  apply_trigger-Scales a s queue t triggers =
      let so = desired_scaled_object a s t in
      let w' = record w { log = apply_scaled_object so ∷ w.log } in
      let (outcome, log) = settled-Tolerated (env.write w.log (apply_scaled_object so)) w' in
      inl (so, log, outcome, refl, refl, refl, triggers)

  apply_trigger_err :
      (a : AgentDeployment F) (s : ScalingSpec) (queue : QueueReference) (e : Err)
      → ((apply_trigger env a s queue (err e) w).1.log ≡ w.log)
        × ((e' : Err) × ((apply_trigger env a s queue (err e) w).0 ≡ err e'))
  unfolding apply_trigger raise
  apply_trigger_err a s queue e = (refl, (_, refl))

  pub scale_on-Scales :
      (a : AgentDeployment F) (s : ScalingSpec) (queue : QueueReference)
      → Scales a s queue (scale_on env a s (some queue) w)
  unfolding scale_on
  scale_on-Scales a s queue = elim (build-Triggers queue s.target_value) [
    | inl (t, e, triggers) ↦ rw e (apply_trigger-Scales a s queue t triggers)
    | inr (e, built, unsupported) ↦
        rw built
          (let (log, failure) = apply_trigger_err a s queue e in inr (unsupported, log, failure))
  ]

  -- A pass over the ScaledObject of an agent that is scaled by a queue writes it, for the agent's Rollout,
  -- with the range of replicas of the spec and the trigger of the provider, and ends without an error if
  -- and only if the API server accepts it or answers as it does where KEDA is not installed. For a
  -- provider without a trigger, one that is not redis, rabbitmq or sqs, it writes nothing and fails.
  pub reconcile_scaled_object-Scales :
      (s : ScalingSpec) (queue : QueueReference)
      → w.agent.spec.scaling ≡ some s
      → s.queue_ref ≡ some queue
      → Scales w.agent s queue (reconcile_scaled_object env w)
  unfolding reconcile_scaled_object scale_by ◌>>=◌
  reconcile_scaled_object-Scales s queue scaled queued =
      subst (λ o. Scales w.agent s queue (scale_by env w.agent o w)) (sym scaled)
        (subst (λ q. Scales w.agent s queue (scale_on env w.agent s q w)) (sym queued)
          (scale_on-Scales w.agent s queue))
