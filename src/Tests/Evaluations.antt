-- ===== src/Tests/Evaluations.antt =====
-- The theorems on the evaluation of an agent, on the sample agent.
use agentroll.Prelude.{◌≡◌, refl, [], ◌∷◌, List, ◌<>◌}
use agentroll.Float.Milli.{ℤ, milli}
use agentroll.Api.{EvalHistoryEntry}
use agentroll.Evaluation.Scores.{parse_composite_version_from_comment}
use agentroll.Evaluation.Comments.{parse_composite_version_lem}
use agentroll.Tests.Samples.{score}

-- One evaluation that the history has, and a new one that comes twice.
abbrev fetched : List (EvalHistoryEntry ℤ)
fetched = score 12 800 ∷ score 13 500 ∷ score 14 500 ∷ []

parse_composite_version_lem_example :
    parse_composite_version_from_comment (("cv=" <> "p1.m1") <> " judged") ≡ "p1.m1"
parse_composite_version_lem_example =
    parse_composite_version_lem "p1.m1" " judged" (refl, (refl, (refl, (refl, (refl, tt))))) refl
