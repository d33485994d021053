-- ===== src/Stats/Scores.antt =====
-- How the evaluations of an agent are shared out between the two sides of an experiment.
use agentroll.Prelude.{
  ℕ, ◌<◌, ◌≡◌, List, [], ◌∷◌, filter_by, ltb, lt→ltb, false, ◌≤◌, ◌⊎◌, inl, inr, arith,
}
use agentroll.Float.{Float64}
use agentroll.Api.{EvalHistoryEntry}
use agentroll.Stats.{collect_variant_scores, collect_control_scores}

-- A history shared out at a time: the scores of the later evaluations, those of the earlier ones, each
-- in the order of the history. What was evaluated at that very time is on neither side.
pub data Shared {F : Type 0} (since : ℕ)
    : List (EvalHistoryEntry F) → List F → List F → Type 0 where
  done : Shared since [] [] []
  after :
      {history : List (EvalHistoryEntry F)} {variant control : List F}
      → (e : EvalHistoryEntry F) → since < e.at
      → Shared since history variant control
      → Shared since (e ∷ history) (e.quality_score ∷ variant) control
  before :
      {history : List (EvalHistoryEntry F)} {variant control : List F}
      → (e : EvalHistoryEntry F) → e.at < since
      → Shared since history variant control
      → Shared since (e ∷ history) variant (e.quality_score ∷ control)
  during :
      {history : List (EvalHistoryEntry F)} {variant control : List F}
      → (e : EvalHistoryEntry F) → e.at ≡ since
      → Shared since history variant control
      → Shared since (e ∷ history) variant control

le→ltb : (a b : ℕ) → b ≤ a → ltb a b ≡ false
le→ltb a b h = ground arith

order : (m n : ℕ) → (m < n) ⊎ (n < m) ⊎ (n ≡ m)
order m n = omega arith

module _ {F : Type 0} ⦃fl : Float64 F⦄ where
  -- An evaluation counts for the variant if it is later than the start of the experiment, for the control
  -- if it is earlier, and never for both: each side is the scores of its evaluations, in their order.
  pub collect_scores-Shared :
      (history : List (EvalHistoryEntry F)) (since : ℕ)
      → Shared since history
          (collect_variant_scores history since)
          (collect_control_scores history since)
  unfolding collect_variant_scores collect_control_scores filter_by
  collect_scores-Shared [] since = done
  collect_scores-Shared (e ∷ history) since =
      let rest = collect_scores-Shared history since in
      elim (order since e.at) [
        | inl later ↦
            rw (lt→ltb since e.at later, le→ltb e.at since (omega arith)) (after e later rest)
        | inr (inl earlier) ↦
            rw (le→ltb since e.at (omega arith), lt→ltb e.at since earlier) (before e earlier rest)
        | inr (inr same) ↦
            rw (le→ltb since e.at (omega arith), le→ltb e.at since (omega arith))
              (during e same rest)
      ]
