-- ===== src/Webhook/Effect.antt =====
-- What the rules of the admission webhook are for: the reconciler, on an agent that has been admitted.
use agentroll.Prelude.{
  ◌<◌, ◌≡◌, ◌≢◌, refl, ◌↔◌, ◌⊎◌, inl, inr, true, false, String, Option, none, some, List, [], ◌∷◌,
  All,
}
use agentroll.Float.{Float64}
use agentroll.Api.{AgentDeployment, ScalingSpec, QueueReference}
use agentroll.Kube.{
  Env, Call, read, Kind, Result, ok, err, Err, apply_scaled_object, ScaledObject, KedaTrigger,
}
use agentroll.Kube.Exec.{World, ◌>>=◌}
use agentroll.Kube.Exec.Sends.{
  Sends, Sent, sends_rules, Sends-bind, Sends-try, Sends-perform, Sends-raise, Sends-pure,
  Sends-ask, Sends-if,
}
use agentroll.Webhook.{is_missing, validate_create, validate_update}
use agentroll.Webhook.Admission.{ScalingIsValid, SpecIsValid, validate_agent_deployment_spec_lem}
use agentroll.Dependencies.Agents.{holds_back, wait_for, check_agent_dependencies}
use agentroll.Rollout.Scaling.{
  desired_scaled_object, settle_scaled_object, apply_trigger, scale_on, scale_by,
  reconcile_scaled_object,
}
use agentroll.Rollout.Scaling.Outcome.{Tolerated, Unsupported, scale_on-Scales}

module _ {F : Type 0} ⦃fl : Float64 F⦄ (constraint_error : String → Option String) where
  -- The webhook has let the agent through, when it was created or when it was changed.
  abbrev pub Admitted : AgentDeployment F → Type 0
  Admitted a =
      (validate_create F constraint_error a ≡ [])
      ⊎ ((old : AgentDeployment F) × (validate_update F constraint_error old a ≡ []))

  Admitted-spec :
      (a : AgentDeployment F) → Admitted a → SpecIsValid F constraint_error a.name a.spec
  unfolding validate_create validate_update
  Admitted-spec a (inl e) =
      (validate_agent_deployment_spec_lem F constraint_error a.name a.spec).0 e
  Admitted-spec a (inr (old, e)) =
      (validate_agent_deployment_spec_lem F constraint_error a.name a.spec).0 e

-- A call that does not look at this agent.
abbrev pub LooksElsewhere : {F : Type 0} → String → Call F → Type 0
LooksElsewhere name call = call ≢ read Kind.agent name

-- A ScaledObject for the Rollout of this name, with a proper range of replicas.
abbrev pub ScalesProperly : {F : Type 0} → String → Call F → Type 0
ScalesProperly name (apply_scaled_object so) =
    (so.target ≡ name) × (so.min_replica_count < so.max_replica_count)
ScalesProperly name _ = ⊥

read-inj :
    {F : Type 0} {m n : String} → ◌≡◌ {A = Call F} (read Kind.agent m) (read Kind.agent n) → m ≡ n
read-inj h = cc

module _ {F : Type 0} (env : Env F) where
  holds_back-Sends :
      {Q : Call F → Type 0}
      → (name : String) (found : Result (AgentDeployment F)) → Sends Q (holds_back env name found)
  unfolding holds_back
  holds_back-Sends name (ok dep) = search (sends_rules) depth 12
  holds_back-Sends name (err e) = search (sends_rules) depth 12

  wait_for-Sends :
      (name : String) (deps : List String)
      → All (λ dep. dep ≢ name) deps
      → Sends (LooksElsewhere name) (wait_for env deps)
  unfolding wait_for
  wait_for-Sends name [] _ = search (sends_rules) depth 12
  wait_for-Sends name (dep ∷ deps) (differs, rest) =
      Sends-bind _ _
        (Sends-try _ (Sends-ask Kind.agent dep env.get_agent (λ e. differs (read-inj e))))
        λ found. Sends-bind _ _ (holds_back-Sends dep found) λ waiting.
          Sends-if waiting _ _ (λ _. Sends-pure true) (λ _. wait_for-Sends name deps rest)

  settle-Sends :
      {Q : Call F → Type 0} → (r : Result (Unit {0})) → Sends Q (settle_scaled_object env r)
  unfolding settle_scaled_object
  settle-Sends (ok _) = search (sends_rules) depth 12
  settle-Sends (err e) = search (sends_rules) depth 12

  apply_trigger-Sends :
      (a : AgentDeployment F) (s : ScalingSpec) (queue : QueueReference) (r : Result KedaTrigger)
      → s.min_replicas < s.max_replicas
      → Sends (ScalesProperly a.name) (apply_trigger env a s queue r)
  unfolding apply_trigger desired_scaled_object
  apply_trigger-Sends a s queue (ok trigger) proper =
      Sends-bind _ _ (Sends-try _ (Sends-perform env _ (refl, proper))) (λ r. settle-Sends r)
  apply_trigger-Sends a s queue (err e) proper = Sends-raise _

  scale_on-Sends :
      (a : AgentDeployment F) (s : ScalingSpec) (queue : Option QueueReference)
      → s.min_replicas < s.max_replicas
      → Sends (ScalesProperly a.name) (scale_on env a s queue)
  unfolding scale_on
  scale_on-Sends a s none proper = Sends-pure _
  scale_on-Sends a s (some queue) proper = apply_trigger-Sends a s queue _ proper

  scale_by-Sends :
      (a : AgentDeployment F) (o : Option ScalingSpec)
      → ScalingIsValid o
      → Sends (ScalesProperly a.name) (scale_by env a o)
  unfolding scale_by
  scale_by-Sends a none _ = Sends-pure _
  scale_by-Sends a (some s) (proper, _) = scale_on-Sends a s s.queue_ref proper

  -- What is scaled on the depth of a queue is not passed over: the API server is asked for the object, and
  -- the pass ends without an error if and only if the answer is tolerated; or the provider has no trigger,
  -- and the pass fails.
  abbrev pub Attempted : Option ScalingSpec → World F → Result (Unit {0}) × World F → Type 0
  Attempted none w p = Unit
  Attempted (some s) w (r, w') =
      (s.metric ≢ "queue-depth")
      ⊎ ((so : ScaledObject) × (w'.log ≡ apply_scaled_object so ∷ w.log)
          × ((r ≡ ok tt) ↔ Tolerated (env.write w.log (apply_scaled_object so))))
      ⊎ ((queue : QueueReference) × (s.queue_ref ≡ some queue)
          × Unsupported queue.provider
          × ((e : Err) × (r ≡ err e)))

  scale_by-Attempted :
      (a : AgentDeployment F) (o : Option ScalingSpec) (w : World F)
      → ScalingIsValid o
      → Attempted o w (scale_by env a o w)
  unfolding scale_by
  scale_by-Attempted a none w _ = tt
  scale_by-Attempted a (some s) w (_, inl other) = inl other
  scale_by-Attempted a (some s) w (_, inr there) = go s.queue_ref refl there
    where
      go :
          (q : Option QueueReference)
          → s.queue_ref ≡ q
          → is_missing q ≡ false
          → Attempted (some s) w (scale_on env a s q w)
      go none same h = cc
      go (some queue) same _ = elim (scale_on-Scales env w a s queue) [
        | inl (so, log, outcome, _, _, _, _) ↦ inr (inl (so, log, outcome))
        | inr (unsupported, _, failure) ↦ inr (inr (queue, same, unsupported, failure))
      ]

module _ {F : Type 0} ⦃fl : Float64 F⦄ (constraint_error : String → Option String)
    (env : Env F) where
  -- What the reconciler does for an agent that the webhook has admitted, in any environment: the gate
  -- never looks at the agent itself; the ScaledObject that it asks for is of the agent's Rollout, with
  -- fewer replicas at least than at most; and an agent that is scaled on the depth of a queue is not
  -- passed over: either the API server is asked for its ScaledObject, and the pass ends without an error
  -- if and only if that is accepted or KEDA is not installed; or the provider of the queue is not redis,
  -- rabbitmq or sqs, which the webhook admits, and the pass fails.
  pub validate_create-reconcile :
      (w : World F)
      → Admitted constraint_error w.agent
      → Sent (LooksElsewhere w.agent.name) w (check_agent_dependencies env w).1
        × Sent (ScalesProperly w.agent.name) w (reconcile_scaled_object env w).1
        × Attempted env w.agent.spec.scaling w (reconcile_scaled_object env w)
  unfolding check_agent_dependencies reconcile_scaled_object ◌>>=◌
  validate_create-reconcile w admitted =
      let (threshold, scaling, versions, others) =
        Admitted-spec constraint_error w.agent admitted in
      (
        (wait_for-Sends env w.agent.name w.agent.spec.depends_on others).at w,
        (scale_by-Sends env w.agent w.agent.spec.scaling scaling).at w,
        scale_by-Attempted env w.agent w.agent.spec.scaling w scaling,
      )
