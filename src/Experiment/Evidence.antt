-- ===== src/Experiment/Evidence.antt =====
-- The life of an experiment, and what its promotion rests on: the same for both kinds.
use agentroll.Prelude.{ℕ, ◌≤◌, ◌≡◌, true, some, List, length, arith}
use agentroll.Float.{Float64}
use agentroll.Stats.{collect_variant_scores, collect_control_scores, welch_t_test}
use agentroll.Api.{ExperimentStatus, ExperimentPhase, EvalHistoryEntry}
use agentroll.Experiment.Decide.{promote, assess}

-- The edges of the life of an experiment. A finished one has no way out.
pub data Edge : ExperimentPhase → ExperimentPhase → Type 0 where
  start_unset : Edge ExperimentPhase.unset ExperimentPhase.testing
  start_pending : Edge ExperimentPhase.pending ExperimentPhase.testing
  keep_testing : Edge ExperimentPhase.testing ExperimentPhase.testing
  win : Edge ExperimentPhase.testing ExperimentPhase.promoted
  lose : Edge ExperimentPhase.testing ExperimentPhase.rejected

module _ {F : Type 0} ⦃fl : Float64 F⦄ where
  -- The evidence for a promotion: enough variant scores, two control scores, and a t-test on them
  -- that is significant and in the variant's favour.
  abbrev pub Won : List (EvalHistoryEntry F) → ℕ → ExperimentStatus F → Type 0
  Won history min_samples st =
      (started_at : ℕ) × (st.experiment_started_at ≡ some started_at)
      × (min_samples ≤ length (collect_variant_scores history started_at))
      × (2 ≤ length (collect_control_scores history started_at))
      × (welch_t_test (collect_variant_scores history started_at)
            (collect_control_scores history started_at)
          ≡ (st.p_value, true))
      × (fl.lt st.p_value (fl.ratio 5 100) ≡ true)

  pub assess_promote :
      (history : List (EvalHistoryEntry F)) (started_at min_samples : ℕ) (st : ExperimentStatus F)
      → st.experiment_started_at ≡ some started_at
      → (assess history started_at min_samples st).1 ≡ promote
      → Won history min_samples (assess history started_at min_samples st).0
  unfolding assess
  assess_promote history started_at min_samples st e h =
      (started_at, ground arith, ground arith, ground arith, ground arith, ground arith)

  pub assess-keeps :
      (history : List (EvalHistoryEntry F)) (started_at min_samples : ℕ) (st : ExperimentStatus F)
      → ((assess history started_at min_samples st).0.phase ≡ st.phase)
        × ((assess history started_at min_samples st).0.experiment_started_at
            ≡ st.experiment_started_at)
  unfolding assess
  assess-keeps history started_at min_samples st = ground arith
