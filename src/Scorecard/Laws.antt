-- ===== src/Scorecard/Laws.antt =====
-- What the scorecard says of the lineages and of the evaluation history.
use agentroll.Prelude.{
  ℕ, ◌+◌, ◌-◌, ◌^◌, ◌≤◌, ◌<◌, ◌≡◌, refl, ◌∙◌, ap, ◌⊎◌, inl, inr, true, Option, none, some, List, [],
  ◌∷◌, ◌++◌, length, drop, ltb, filter_by, map, arith, keep_last, if◌then◌else◌, length-drop,
  Bool-cases, sym, ltb→le, ltb→lt, length-map, drop-drop,
}
use native.Mathlib.Nat.{zero-add}
use agentroll.Float.{Float64}
use agentroll.Int.{ℤ, pos, inc32}
use agentroll.Api.{Outcome, promoted, rejected, EvalHistoryEntry, AgentDeploymentStatus}
use agentroll.Scorecard.{
  is_promoted, count_outcomes, latest_from, compute_quality_trend, detect_regression,
  before_promotion, after_promotion, most_recent_promotion_time, prompt_outcomes, tool_outcomes,
  compute_optimization_scorecard,
}

-- How many promotions, and how many rejections, a list has.
abbrev pub promotions : List Outcome → ℕ
promotions [] = 0
promotions (promoted ∷ os) = promotions os + 1
promotions (rejected ∷ os) = promotions os

abbrev pub rejections : List Outcome → ℕ
rejections [] = 0
rejections (promoted ∷ os) = rejections os
rejections (rejected ∷ os) = rejections os + 1

count_outcomes-eq :
    (a b : ℕ) (os : List Outcome)
    → a + b + length os < 2 ^ 31
    → count_outcomes (pos a, pos b) os ≡ (pos (a + promotions os), pos (b + rejections os))
unfolding count_outcomes
count_outcomes-eq a b [] h = ground arith
count_outcomes-eq a b (promoted ∷ os) h =
    let e : inc32 (pos a) ≡ pos (a + 1) = ground arith in
    rw e (count_outcomes-eq (a + 1) b os (omega arith) ∙ ground arith)
count_outcomes-eq a b (rejected ∷ os) h =
    let e : inc32 (pos b) ≡ pos (b + 1) = ground arith in
    rw e (count_outcomes-eq a (b + 1) os (omega arith) ∙ ground arith)

-- `t` is the time of a promotion in the list.
abbrev pub PromotedAt : ℕ → List (Outcome × ℕ) → Type 0
PromotedAt t [] = ⊥
PromotedAt t ((o, at) ∷ rest) = ((o ≡ promoted) × (at ≡ t)) ⊎ PromotedAt t rest

-- The newest promotion of a list of outcomes, or `none` when the list has none.
abbrev pub IsLatest : Option ℕ → List (Outcome × ℕ) → Type 0
IsLatest none os = (t : ℕ) → ¬ (PromotedAt t os)
IsLatest (some t) os = PromotedAt t os × ((u : ℕ) → PromotedAt u os → u ≤ t)

-- The loop's variable as one more promotion at the front.
abbrev started : Option ℕ → List (Outcome × ℕ) → List (Outcome × ℕ)
started none os = os
started (some t) os = (promoted, t) ∷ os

IsLatest-skip :
    (r : Option ℕ) (at : ℕ) (os : List (Outcome × ℕ))
    → IsLatest r os
    → IsLatest r ((rejected, at) ∷ os)
IsLatest-skip none at os h = λ t p. elim p [ inl (e, _) ↦ cc | inr q ↦ h t q ]
IsLatest-skip (some v) at os h = (inr h.0, λ u p. elim p [ inl (e, _) ↦ cc | inr q ↦ h.1 u q ])

-- A second promotion that is no newer than one at hand changes nothing.
IsLatest-older :
    (r : Option ℕ) (t at : ℕ) (os : List (Outcome × ℕ))
    → t ≤ at
    → IsLatest r ((promoted, at) ∷ os)
    → IsLatest r ((promoted, t) ∷ (promoted, at) ∷ os)
IsLatest-older none t at os le h = absurd (h at (inl (refl, refl)))
IsLatest-older (some v) t at os le h =
    let bound : at ≤ v = h.1 at (inl (refl, refl)) in
    (inr h.0, λ u p. elim p [ inl (_, e) ↦ omega arith | inr q ↦ h.1 u q ])

PromotedAt-swap :
    (u : ℕ) (a b : Outcome × ℕ) (os : List (Outcome × ℕ))
    → PromotedAt u (a ∷ b ∷ os)
    → PromotedAt u (b ∷ a ∷ os)
PromotedAt-swap u (_, _) (_, _) os (inl p) = inr (inl p)
PromotedAt-swap u (_, _) (_, _) os (inr (inl p)) = inl p
PromotedAt-swap u (_, _) (_, _) os (inr (inr p)) = inr (inr p)

IsLatest-swap :
    (r : Option ℕ) (a b : Outcome × ℕ) (os : List (Outcome × ℕ))
    → IsLatest r (a ∷ b ∷ os)
    → IsLatest r (b ∷ a ∷ os)
IsLatest-swap none a b os h = λ t p. h t (PromotedAt-swap t b a os p)
IsLatest-swap (some v) a b os h =
    (PromotedAt-swap v a b os h.0, λ u p. h.1 u (PromotedAt-swap u b a os p))

latest_from-IsLatest :
    (latest : Option ℕ) (os : List (Outcome × ℕ))
    → IsLatest (latest_from latest os) (started latest os)
unfolding latest_from
latest_from-IsLatest none [] = λ t p. p
latest_from-IsLatest (some t) [] =
    (inl (refl, refl), λ u p. elim p [ inl (_, e) ↦ omega arith | inr q ↦ absurd q ])
latest_from-IsLatest none ((promoted, at) ∷ os) = latest_from-IsLatest (some at) os
latest_from-IsLatest none ((rejected, at) ∷ os) =
    IsLatest-skip (latest_from none os) at os (latest_from-IsLatest none os)
latest_from-IsLatest (some t) ((rejected, at) ∷ os) =
    IsLatest-swap _ (rejected, at) (promoted, t) os
      (IsLatest-skip (latest_from (some t) os) at ((promoted, t) ∷ os)
        (latest_from-IsLatest (some t) os))
latest_from-IsLatest (some t) ((promoted, at) ∷ os) = elim (Bool-cases (ltb t at)) [
  | inl newer ↦ rw newer (
      IsLatest-older (latest_from (some at) os) t at os (ground arith)
        (latest_from-IsLatest (some at) os))
  | inr older ↦ rw older (
      IsLatest-swap _ (promoted, at) (promoted, t) os
        (IsLatest-older (latest_from (some t) os) at t os (ltb→le t at older)
          (latest_from-IsLatest (some t) os)))
]

latest_from-append :
    (latest : Option ℕ) (xs ys : List (Outcome × ℕ))
    → latest_from (latest_from latest xs) ys ≡ latest_from latest (xs ++ ys)
unfolding latest_from
latest_from-append latest [] ys = refl
latest_from-append latest ((o, at) ∷ xs) ys =
    latest_from-append
      (if is_promoted o
        then elim latest [ none ↦ some at | some t ↦ if ltb t at then some at else some t ]
        else latest)
      xs ys

module _ {F : Type 0} ⦃fl : Float64 F⦄ where
  -- The time that the scorecard takes for the last promotion is the newest promotion of the prompt
  -- and the tool lineage together; there is none exactly when neither has a promotion.
  pub most_recent_promotion_time-IsLatest :
      (status : AgentDeploymentStatus F)
      → IsLatest
          (most_recent_promotion_time status)
          (prompt_outcomes status ++ tool_outcomes status)
  unfolding most_recent_promotion_time
  most_recent_promotion_time-IsLatest status =
      rw (latest_from-append none (prompt_outcomes status) (tool_outcomes status))
        (latest_from-IsLatest none (prompt_outcomes status ++ tool_outcomes status))

  -- The scorecard counts every entry of a lineage once: as a promotion when its outcome is
  -- "promoted", as a rejection when it is not. Lineages hold fewer than 2 ^ 31 entries.
  pub scorecard_counts :
      (now : ℕ) (status : AgentDeploymentStatus F)
      → length status.prompt_lineage < 2 ^ 31
      → length status.tool_lineage < 2 ^ 31
      → let sc = compute_optimization_scorecard now status in
        let prompts = map (λ e. e.outcome) status.prompt_lineage in
        let tools = map (λ e. e.outcome) status.tool_lineage in
        (sc.prompt_promotions ≡ pos (promotions prompts))
        × (sc.prompt_rejections ≡ pos (rejections prompts))
        × (sc.tool_promotions ≡ pos (promotions tools))
        × (sc.tool_rejections ≡ pos (rejections tools))
  unfolding compute_optimization_scorecard
  scorecard_counts now status h k =
      let prompts = map (λ e. e.outcome) status.prompt_lineage in
      let tools = map (λ e. e.outcome) status.tool_lineage in
      let p =
        count_outcomes-eq 0 0 prompts
          (omega (arith, length-map {0, 0} status.prompt_lineage (λ e. e.outcome))) in
      let t =
        count_outcomes-eq 0 0 tools
          (omega (arith, length-map {0, 0} status.tool_lineage (λ e. e.outcome))) in
      (
        ap (λ (c : ℤ × ℤ). c.0) p ∙ ap pos (zero-add _),
        ap (λ (c : ℤ × ℤ). c.1) p ∙ ap pos (zero-add _),
        ap (λ (c : ℤ × ℤ). c.0) t ∙ ap pos (zero-add _),
        ap (λ (c : ℤ × ℤ). c.1) t ∙ ap pos (zero-add _),
      )

  partition_length :
      (history : List (EvalHistoryEntry F)) (at : ℕ)
      → length (before_promotion at history) + length (after_promotion at history) ≡ length history
  unfolding before_promotion after_promotion filter_by
  partition_length [] at = refl
  partition_length (e ∷ history) at = ground (arith, partition_length history at)

  -- A regression is reported only when at least three evaluations lie before the last promotion and
  -- at least three at or after it, so never on a history of fewer than six.
  detect_regression_needs :
      (history : List (EvalHistoryEntry F)) (at : ℕ) (threshold : F)
      → detect_regression history at threshold ≡ true
      → (3 ≤ length (before_promotion at history))
        × (3 ≤ length (after_promotion at history))
        × (6 ≤ length history)
  unfolding detect_regression
  detect_regression_needs history at threshold h = ground (
    arith,
    partition_length history at,
    length-map (before_promotion at history) (λ e. e.quality_score),
    length-map (after_promotion at history) (λ e. e.quality_score),
  )

  -- Only the six newest evaluations decide the trend.
  trend-keep_last :
      (history : List (EvalHistoryEntry F))
      → compute_quality_trend history ≡ compute_quality_trend (keep_last 6 history)
  unfolding compute_quality_trend keep_last
  trend-keep_last history = elim (Bool-cases (ltb (length history) 6)) [
    | inl few ↦
        (let e : length history - 6 ≡ 0 = omega (arith, ltb→lt (length history) 6 few) in
          sym (ap (λ k. compute_quality_trend (drop k history)) e))
    | inr enough ↦
        (let all : length (drop (length history - 6) history) ≡ 6 =
            omega
              (arith, ltb→le (length history) 6 enough, length-drop (length history - 6) history) in
          let tail : drop 3 (drop (length history - 6) history)
              ≡ drop (length history - 3) history =
            drop-drop 3 (length history - 6) history
            ∙ ap (λ k. drop k history) (omega (arith, ltb→le (length history) 6 enough)) in
          rw (enough, all, tail) refl)
  ]
