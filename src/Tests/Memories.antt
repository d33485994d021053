-- ===== src/Tests/Memories.antt =====
-- The theorems on the memory of an agent, on the sample cluster.
use agentroll.Prelude.{
  arith, inr, [], ◌∷◌, ◌==◌, if◌then◌else◌, String, lookup, refl, none, some, true, false,
}
use agentroll.Api.{AgentDeploymentPhase, MemorySpec, MemoryBackendSpec}
use agentroll.Float.Milli.{ℤ, milli}
use agentroll.Kube.{Secret, Env, ok, RolloutPhase, RolloutState}
use agentroll.Kube.Exec.{World, ◌>>=◌}
use agentroll.Langfuse.{exchange}
use agentroll.Memory.Mem0.{mem0_do, exported, mem0_export_memory, imported, mem0_import_memory}
use agentroll.Kube.Exec.Sends.{Sent}
use agentroll.Memory.Backend.{
  reconcile_memory_backend, take_memory_snapshot, restore_memory_snapshot, read_backend_api_key,
  key_of, store_snapshot, memory_snapshot_secret_name, restore_from, import_snapshot,
}
use agentroll.Memory.Restore.{Answered, Imported, restore_memory_snapshot-take}
use agentroll.Memory.Lifecycle.{reconcile_memory_lifecycle}
use agentroll.Memory.Edges.{TimelyOn, reconcile_memory_backend-Timely}
use agentroll.Memory.Snapshots.{LifecyclePass, reconcile_memory_lifecycle-agent}
use agentroll.Tests.Samples.{agent, spec, world, cluster}

abbrev mem0 : MemoryBackendSpec
mem0 = record { endpoint = "http://mem0"; secret_ref = "mem0-key"; session_id = "s" }

abbrev memory : MemorySpec
memory = record {
  snapshot_enabled = true;
  snapshot_interval_minutes = none;
  max_snapshots = some 3;
  drift_threshold = none;
  rollback_on_drift = false;
  backend = some mem0;
  snapshot_on_promotion = true;
  rollback_memory_on_canary_fail = true;
}

abbrev remembering : World ℤ
remembering = record world { agent = record agent { spec = record spec { memory = some memory } } }

abbrev starting : RolloutState
starting = record {
  phase = RolloutPhase.progressing;
  current_pod_hash = "b";
  stable_rs = "a";
  canary_weight = some 20;
}

abbrev rolling : Env ℤ
rolling = record cluster { get_rollout = λ log name. ok starting }

reconcile_memory_backend-Timely_example :
    Sent
      (TimelyOn rolling memory mem0 AgentDeploymentPhase.stable (ok starting))
      remembering
      (reconcile_memory_backend rolling "p1.m1.v3" remembering).1
reconcile_memory_backend-Timely_example =
    reconcile_memory_backend-Timely rolling remembering "p1.m1.v3" memory mem0 refl refl

reconcile_memory_lifecycle-agent_example :
    LifecyclePass 20 remembering.agent
      (reconcile_memory_lifecycle rolling "p1.m1.v3" remembering).1.agent
reconcile_memory_lifecycle-agent_example =
    reconcile_memory_lifecycle-agent rolling remembering "p1.m1.v3" (omega arith)

abbrev credentials : Secret
credentials = record { name = "mem0-key"; labels = []; entries = ("MEM0_API_KEY", "k") ∷ [] }

-- mem0 answers every export with this memory, and the copy goes to a Secret that is there already.
abbrev answering : Env ℤ
answering = record cluster {
  get_secret = λ log name. ok credentials;
  send = λ log request. ok (record { status = 200; body = "[]"; unread = none });
}

abbrev copy : Secret
copy = record {
  name = "mem0-key";
  labels =
      ("app.kubernetes.io/managed-by", "agentroll")
      ∷ ("agentroll.dev/agent", "agent")
      ∷ ("agentroll.dev/snapshot-version", "v2")
      ∷ [];
  entries = ("snapshot.json", "[]") ∷ [];
}

abbrev holding : Env ℤ
holding = record answering {
  get_secret = λ log name. ok (if name == "mem0-key" then credentials else copy);
}

abbrev copied : World ℤ
copied = (take_memory_snapshot answering "v2" mem0 remembering).1

restore_memory_snapshot-take_example :
    (body : String) × Answered answering mem0 body
    × Imported holding mem0 body (restore_memory_snapshot holding mem0 copied).1
unfolding take_memory_snapshot restore_memory_snapshot read_backend_api_key key_of store_snapshot
    restore_from import_snapshot mem0_export_memory mem0_import_memory mem0_do exported imported
    exchange lookup memory_snapshot_secret_name ◌>>=◌
restore_memory_snapshot-take_example =
    restore_memory_snapshot-take answering holding "v2" mem0 remembering copied copy refl
      (_, inr refl) refl refl refl
