-- ===== src/Rollout/Scaling.antt =====
-- reconcileScaledObject, buildKEDATrigger and isNoCRDError of
-- internal/controller/agentdeployment_controller.go.
pub mod Outcome
use agentroll.Prelude.{
  ℕ, Bool, ◌||◌, Option, none, some, [], ◌∷◌, contains, decimal, quoted, ◌<>◌, ◌==◌, if◌then◌else◌,
}
use agentroll.Api.{AgentDeployment, ScalingSpec, QueueReference}
use agentroll.Kube.{
  Env, Err, Result, ok, err, error_text, is_not_found, failed, wrap, apply_scaled_object,
  KedaTrigger, ScaledObject,
}
use agentroll.Kube.Exec.{Exec, pure, raise, gets, try, perform, ◌>>=◌}

-- isNoCRDError, at an error.
unfoldable pub is_no_crd_error : Err → Bool
is_no_crd_error e =
    let msg = error_text e in
    contains "no kind is registered" msg
    || contains "no matches for kind" msg
    || contains "resource type not known" msg

-- buildKEDATrigger.
unfoldable pub build_keda_trigger : QueueReference → ℕ → Result KedaTrigger
build_keda_trigger queue target =
    if queue.provider == "redis"
    then ok (record {
      kind = "redis";
      metadata =
          ("address", queue.address)
          ∷ ("listName", queue.queue_name)
          ∷ ("listLength", decimal target)
          ∷ [];
    })
    else if queue.provider == "rabbitmq"
    then ok (record {
      kind = "rabbitmq";
      metadata =
          ("host", queue.address)
          ∷ ("queueName", queue.queue_name)
          ∷ ("queueLength", decimal target)
          ∷ ("protocol", "amqp")
          ∷ ("mode", "QueueLength")
          ∷ [];
    })
    else if queue.provider == "sqs"
    then ok (record {
      kind = "aws-sqs-queue";
      metadata =
          ("queueURL", queue.address)
          ∷ ("queueLength", decimal target)
          ∷ ("awsRegion", "us-east-1")
          ∷ [];
    })
    else err (failed "supported providers: redis, rabbitmq, sqs")

module _ {F : Type 0} where
  -- What the function of CreateOrUpdate leaves.
  unfoldable pub desired_scaled_object :
      AgentDeployment F → ScalingSpec → KedaTrigger → ScaledObject
  desired_scaled_object a scaling trigger = record {
    name = a.name;
    labels =
        ("app.kubernetes.io/name", a.name) ∷ ("app.kubernetes.io/managed-by", "agentroll") ∷ [];
    target = a.name;
    min_replica_count = scaling.min_replicas;
    max_replica_count = scaling.max_replicas;
    trigger = trigger;
  }

module _ {F : Type 0} (env : Env F) where
  -- Without KEDA in the cluster the object is given up, and that is no error.
  unfoldable pub settle_scaled_object : Result (Unit {0}) → Exec F (Unit {0})
  settle_scaled_object (ok _) = pure tt
  settle_scaled_object (err e) =
      if is_not_found e || is_no_crd_error e
      then pure tt
      else raise (wrap "failed to reconcile ScaledObject" e)

  unfoldable pub apply_trigger :
      AgentDeployment F → ScalingSpec → QueueReference → Result KedaTrigger → Exec F (Unit {0})
  apply_trigger a scaling queue (ok trigger) = do
    written ← try (perform env (apply_scaled_object (desired_scaled_object a scaling trigger)))
    settle_scaled_object written
  apply_trigger a scaling queue (err e) =
      raise (wrap ("unsupported queue provider " <> quoted queue.provider) e)

  unfoldable pub scale_on :
      AgentDeployment F → ScalingSpec → Option QueueReference → Exec F (Unit {0})
  scale_on a scaling none = pure tt
  scale_on a scaling (some queue) =
      apply_trigger a scaling queue (build_keda_trigger queue scaling.target_value)

  unfoldable pub scale_by : AgentDeployment F → Option ScalingSpec → Exec F (Unit {0})
  scale_by a none = pure tt
  scale_by a (some scaling) = scale_on a scaling scaling.queue_ref

  -- reconcileScaledObject.
  unfoldable pub reconcile_scaled_object : Exec F (Unit {0})
  reconcile_scaled_object = do a ← gets (λ w. w.agent); scale_by a a.spec.scaling
