-- ===== src/Memory/Snapshots.antt =====
-- The quality snapshots of reconcileMemoryLifecycle: how often they are taken, how many are kept, and
-- what a pass leaves alone.
use std.Path.{subst}
use agentroll.Prelude.{
  ℕ, ◌+◌, ◌*◌, ◌^◌, ◌≡◌, ◌≤◌, ◌<◌, refl, sym, ◌⊎◌, inl, inr, Bool, true, false, not, ◌&&◌, String,
  Option, none, some, List, length, arith, Bool-cases, is_empty, if◌then◌else◌,
}
use agentroll.Float.{Float64, neg}
use agentroll.Api.{AgentDeployment, MemorySpec, MemoryStatus, EvalHistoryEntry}
use agentroll.History.{append_memory_snapshot}
use agentroll.History.Bounds.{length-append_capped}
use agentroll.Kube.{Env}
use agentroll.Kube.Exec.{World, pure, ◌>>=◌}
use agentroll.Memory.Lifecycle.{
  value_or, should_take_snapshot, take_snapshot, with_drift, memory_or_new, with_memory,
  lifecycle_pass, lifecycle_of, compute_drift_score, drift_threshold, reconcile_memory_lifecycle,
}

-- The time has come for a snapshot.
abbrev pub Due : ℕ → MemorySpec → Option ℕ → Type 0
Due now mem none = Unit
Due now mem (some last) = last + value_or 30 mem.snapshot_interval_minutes * (60 * 10 ^ 9) ≤ now

-- The interval is less than 2 ^ 63 nanoseconds, some 292 years.
abbrev pub InRange : MemorySpec → Type 0
InRange mem = value_or 30 mem.snapshot_interval_minutes * (60 * 10 ^ 9) < 2 ^ 63

abbrev pub HasRange : Option MemorySpec → Type 0
HasRange none = Unit
HasRange (some mem) = InRange mem

should_take_snapshot_lem :
    (now : ℕ) (mem : MemorySpec) (last : Option ℕ)
    → InRange mem
    → should_take_snapshot now last (value_or 30 mem.snapshot_interval_minutes) ≡ true
    → Due now mem last
unfolding should_take_snapshot
should_take_snapshot_lem now mem none range h = tt
should_take_snapshot_lem now mem (some last) range h = ground arith

and_left : (a b : Bool) → (a && b) ≡ true → a ≡ true
and_left true b h = refl
and_left false b h = cc

module _ {F : Type 0} ⦃fl : Float64 F⦄ where
  -- The snapshots are as they were; or one was due, it is recorded at the time `now`, and no more are
  -- kept than the spec allows. What the copies of the backend's memory are known by stays.
  abbrev pub Paced : ℕ → MemorySpec → MemoryStatus F → MemoryStatus F → Type 0
  Paced now mem old new =
      (((new.snapshots ≡ old.snapshots) × (new.last_snapshot_at ≡ old.last_snapshot_at))
        ⊎ (Due now mem old.last_snapshot_at
            × (new.last_snapshot_at ≡ some now)
            × (length new.snapshots ≤ value_or 10 mem.max_snapshots)))
      × (new.last_memory_snapshot_secret ≡ old.last_memory_snapshot_secret)
      × (new.last_memory_snapshot_version ≡ old.last_memory_snapshot_version)
      × (new.last_memory_snapshot_at ≡ old.last_memory_snapshot_at)

  take_snapshot-Paced :
      (now : ℕ) (mem : MemorySpec) (history : List (EvalHistoryEntry F)) (version : String)
      (old : MemoryStatus F) (drift threshold : F)
      → InRange mem
      → Paced now mem old (with_drift drift threshold (take_snapshot now mem history version old))
  unfolding take_snapshot with_drift append_memory_snapshot
  take_snapshot-Paced now mem history version old drift threshold range =
      elim (Bool-cases (
        should_take_snapshot now old.last_snapshot_at (value_or 30 mem.snapshot_interval_minutes)
        && not (is_empty history))) [
          | inl due ↦ rw due (
            inr (
              should_take_snapshot_lem now mem old.last_snapshot_at range (and_left _ _ due),
              refl,
              length-append_capped (value_or 10 mem.max_snapshots) old.snapshots _,
            ),
            refl,
            refl,
            refl,
          )
          | inr early ↦ rw early (inl (refl, refl), refl, refl, refl)
        ]

  -- What a pass does to the agent.
  abbrev pub LifecyclePass : ℕ → AgentDeployment F → AgentDeployment F → Type 0
  LifecyclePass now before after =
      (after ≡ before)
      ⊎ ((mem : MemorySpec) × (ms : MemoryStatus F) × (before.spec.memory ≡ some mem)
          × (mem.snapshot_enabled ≡ true)
          × (after ≡ with_memory before ms)
          × Paced now mem (memory_or_new before.status.memory) ms)

  lifecycle_pass-agent :
      (env : Env F) (w : World F) (version : String) (mem : MemorySpec)
      → w.agent.spec.memory ≡ some mem
      → mem.snapshot_enabled ≡ true
      → InRange mem
      → LifecyclePass env.now w.agent (lifecycle_pass env version mem w).1.agent
  unfolding lifecycle_pass ◌>>=◌
  lifecycle_pass-agent env w version mem given on range =
      let old = memory_or_new w.agent.status.memory in
      let ms = take_snapshot env.now mem w.agent.status.eval_history version old in
      let drift = compute_drift_score ms.snapshots in
      let threshold = drift_threshold mem.drift_threshold in
      let paced =
        take_snapshot-Paced env.now mem w.agent.status.eval_history version old drift threshold
          range in
      elim (Bool-cases (fl.lt drift (neg threshold))) [
        | inl low ↦ rw low (inr (mem, with_drift drift threshold ms, given, on, refl, paced))
        | inr fine ↦ rw fine (inr (mem, with_drift drift threshold ms, given, on, refl, paced))
      ]

  lifecycle_of-agent :
      (env : Env F) (w : World F) (version : String) (o : Option MemorySpec)
      → w.agent.spec.memory ≡ o
      → HasRange o
      → LifecyclePass env.now w.agent (lifecycle_of env version o w).1.agent
  unfolding lifecycle_of pure
  lifecycle_of-agent env w version none given range = inl refl
  lifecycle_of-agent env w version (some mem) given range = elim (Bool-cases mem.snapshot_enabled) [
    | inl on ↦
        subst
          (λ b.
            LifecyclePass env.now w.agent
              ((if b then lifecycle_pass env version mem else pure tt) w).1.agent)
          (sym on) (lifecycle_pass-agent env w version mem given on range)
    | inr off ↦
        subst
          (λ b.
            LifecyclePass env.now w.agent
              ((if b then lifecycle_pass env version mem else pure tt) w).1.agent)
          (sym off) (inl refl)
  ]

  -- A pass over the quality snapshots changes nothing of the agent but status.memory, and that only if
  -- snapshotEnabled is set. It takes a snapshot only when none was taken before or the interval has
  -- passed since the last one, keeps no more than maxSnapshots after taking one, and leaves the record
  -- of the copies of the backend's memory alone. The interval is less than 2 ^ 63 nanoseconds.
  pub reconcile_memory_lifecycle-agent :
      (env : Env F) (w : World F) (version : String)
      → HasRange w.agent.spec.memory
      → LifecyclePass env.now w.agent (reconcile_memory_lifecycle env version w).1.agent
  unfolding reconcile_memory_lifecycle ◌>>=◌
  reconcile_memory_lifecycle-agent env w version range =
      lifecycle_of-agent env w version w.agent.spec.memory refl range
