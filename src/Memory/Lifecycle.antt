-- ===== src/Memory/Lifecycle.antt =====
-- internal/controller/memory_lifecycle.go. A time is a number of nanoseconds.
use agentroll.Prelude.{
  ℕ, ◌+◌, ◌*◌, ◌/◌, ◌%◌, ◌^◌, Bool, true, false, not, ◌&&◌, String, ◌<>◌, Option, none, some, List,
  [], length, take, keep_last, map, ltb, leb, is_empty, min, if◌then◌else◌,
}
use agentroll.Float.{Float64, zero_f, neg}
use agentroll.Stats.{sum_from}
use agentroll.Api.{AgentDeployment, MemorySpec, MemoryStatus, MemorySnapshotEntry, EvalHistoryEntry}
use agentroll.History.{append_memory_snapshot}
use agentroll.Kube.{Env}
use agentroll.Kube.Exec.{Exec, pure, gets, modify, emit, warning, ◌>>=◌, ◌>>◌}

abbrev pub value_or : ℕ → Option ℕ → ℕ
value_or fallback none = fallback
value_or fallback (some n) = n

abbrev minute : ℕ
minute = 60 * 10 ^ 9

-- shouldTakeSnapshot at the time `now`. The interval is an int64 in nanoseconds, `d - 2 ^ 64` where the
-- product `d` modulo 2 ^ 64 is not below 2 ^ 63.
unfoldable pub should_take_snapshot : ℕ → Option ℕ → ℕ → Bool
should_take_snapshot now none interval_minutes = true
should_take_snapshot now (some last) interval_minutes =
    let d = interval_minutes * minute % 2 ^ 64 in
    if ltb d (2 ^ 63) then leb (last + d) now else leb (last + d) (now + 2 ^ 64)

module _ {F : Type 0} ⦃fl : Float64 F⦄ where
  -- recentMeanQuality, at `n` that is not negative.
  unfoldable pub recent_mean_quality : List (EvalHistoryEntry F) → ℕ → F
  recent_mean_quality history n =
      let recent = keep_last n history in
      if is_empty history
      then zero_f
      else fl.div (sum_from zero_f (map (λ e. e.quality_score) recent)) (fl.of_nat (length recent))

  -- computeDriftScore.
  unfoldable pub compute_drift_score : List (MemorySnapshotEntry F) → F
  compute_drift_score snapshots =
      let scores = map (λ s. s.mean_quality_score) snapshots in
      let half = length scores / 2 in
      let baseline_mean = fl.div (sum_from zero_f (take half scores)) (fl.of_nat half) in
      let recent_mean = fl.div (sum_from zero_f (keep_last half scores)) (fl.of_nat half) in
      if ltb (length scores) 4
      then zero_f
      else if fl.eq baseline_mean zero_f
      then zero_f
      else fl.div (fl.sub recent_mean baseline_mean) baseline_mean

  abbrev pub empty_memory : MemoryStatus F
  empty_memory = record {
    last_snapshot_at = none;
    drift_detected = false;
    drift_score = zero_f;
    snapshots = [];
    last_memory_snapshot_at = none;
    last_memory_snapshot_secret = "";
    last_memory_snapshot_version = "";
  }

  -- `if agentDeploy.Status.Memory == nil { … = &MemoryStatus{} }`.
  abbrev pub memory_or_new : Option (MemoryStatus F) → MemoryStatus F
  memory_or_new none = empty_memory
  memory_or_new (some ms) = ms

  abbrev pub with_memory : AgentDeployment F → MemoryStatus F → AgentDeployment F
  with_memory a ms = record a { status = record a.status { memory = some ms } }

  -- The snapshot of a pass at the time `now`, if one is due.
  unfoldable pub take_snapshot :
      ℕ → MemorySpec → List (EvalHistoryEntry F) → String → MemoryStatus F → MemoryStatus F
  take_snapshot now mem history composite_version ms =
      let sample_n = min 10 (length history) in
      let entry : MemorySnapshotEntry F = record {
        at = now;
        composite_version = composite_version;
        mean_quality_score = recent_mean_quality history sample_n;
        sample_count = sample_n;
      } in
      if should_take_snapshot now ms.last_snapshot_at (value_or 30 mem.snapshot_interval_minutes)
        && not (is_empty history)
      then record (append_memory_snapshot ms entry (value_or 10 mem.max_snapshots)) {
        last_snapshot_at = some now;
      }
      else ms

  -- The threshold of the spec, and 0.10 when there is none or it does not parse.
  unfoldable pub drift_threshold : Option String → F
  drift_threshold none = fl.ratio 10 100
  drift_threshold (some text) = elim (fl.scan text) [
    | none ↦ fl.ratio 10 100
    | some parsed ↦ parsed
  ]

  unfoldable pub with_drift : F → F → MemoryStatus F → MemoryStatus F
  with_drift drift threshold ms = record ms {
    drift_score = drift;
    drift_detected = fl.lt drift (neg threshold);
  }

  -- The message of a drift; `suffix` is the advice that rollbackOnDrift adds.
  abbrev drift_message : F → F → String → String
  drift_message drift threshold suffix =
      "Memory drift detected: quality dropped "
      <> fl.format "%.1f" (fl.mul (neg drift) (fl.of_nat 100))
      <> "% from baseline (threshold: "
      <> fl.format "%.1f" (fl.mul threshold (fl.of_nat 100))
      <> "%)"
      <> suffix

  unfoldable pub lifecycle_pass : Env F → String → MemorySpec → Exec F (Unit {0})
  lifecycle_pass env composite_version mem = do
    a ← gets (λ w. w.agent)
    let ms =
        take_snapshot env.now mem a.status.eval_history composite_version
          (memory_or_new a.status.memory)
    let drift = compute_drift_score ms.snapshots
    let threshold = drift_threshold mem.drift_threshold
    modify (λ b. with_memory b (with_drift drift threshold ms))
    if fl.lt drift (neg threshold)
        then emit warning "MemoryDriftDetected" (
            drift_message drift threshold (
              if mem.rollback_on_drift
              then " — consider rolling back to a previous stable version."
              else ""))
        else pure tt

  unfoldable pub lifecycle_of : Env F → String → Option MemorySpec → Exec F (Unit {0})
  lifecycle_of env composite_version none = pure tt
  lifecycle_of env composite_version (some mem) =
      if mem.snapshot_enabled then lifecycle_pass env composite_version mem else pure tt

  -- reconcileMemoryLifecycle.
  unfoldable pub reconcile_memory_lifecycle : Env F → String → Exec F (Unit {0})
  reconcile_memory_lifecycle env composite_version = do
    a ← gets (λ w. w.agent)
    lifecycle_of env composite_version a.spec.memory
