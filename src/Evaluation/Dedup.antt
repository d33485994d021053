-- ===== src/Evaluation/Dedup.antt =====
-- The set of reconcileEvalHistory: what the history has is not appended again.
use agentroll.Prelude.{◌≡◌, true, List, [], ◌∷◌, ◌⊎◌}
use agentroll.Float.{Float64}
use agentroll.Api.{EvalHistoryEntry}
use agentroll.Evaluation.Scores.{was_seen}

module _ {F : Type 0} ⦃fl : Float64 F⦄ where
  -- Whatever is seen in one list is seen in the other.
  abbrev Covers : List (EvalHistoryEntry F) → List (EvalHistoryEntry F) → Type 0
  Covers big small = (e : EvalHistoryEntry F) → was_seen e small ≡ true → was_seen e big ≡ true

  -- The key of an entry equals itself: its score is a number.
  abbrev pub IsNumber : EvalHistoryEntry F → Type 0
  IsNumber e = fl.eq e.quality_score e.quality_score ≡ true

  -- An entry of the version and with the score of a judgement is in the history.
  abbrev pub Recorded : EvalHistoryEntry F → List (EvalHistoryEntry F) → Type 0
  Recorded e [] = ⊥
  Recorded e (x ∷ history) =
      ((x.composite_version ≡ e.composite_version) × (fl.eq x.quality_score e.quality_score ≡ true))
      ⊎ Recorded e history
