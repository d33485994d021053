-- ===== src/Stats.antt =====
-- The statistics of internal/controller/prompt_experiment.go (sections 10.2 and 10.3), and
-- computeStats of evolution.go, over the carrier `F` of `float64`.
pub mod Scores
use agentroll.Prelude.{
  ℕ, zero, suc, ◌+◌, ◌^◌, Bool, false, ◌||◌, List, [], ◌∷◌, length, map, ltb, filter_by,
  if◌then◌else◌,
}
use agentroll.Float.{Float64, zero_f, one_f, gt, abs}
use agentroll.Api.{EvalHistoryEntry}

module _ {F : Type 0} ⦃fl : Float64 F⦄ where
  -- `for _, s := range scores { sum += s }`.
  unfoldable pub sum_from : F → List F → F
  sum_from acc [] = acc
  sum_from acc (s ∷ scores) = sum_from (fl.add acc s) scores

  -- `for _, s := range scores { d := s - mean; variance += d * d }`.
  unfoldable pub squares_from : F → F → List F → F
  squares_from mean acc [] = acc
  squares_from mean acc (s ∷ scores) =
      let d = fl.sub s mean in squares_from mean (fl.add acc (fl.mul d d)) scores

  -- collectVariantScores: the scores after the start of the experiment.
  unfoldable pub collect_variant_scores : List (EvalHistoryEntry F) → ℕ → List F
  collect_variant_scores history since =
      map (λ e. e.quality_score) (filter_by (λ e. ltb since e.at) history)

  -- collectControlScores: the scores before it.
  unfoldable pub collect_control_scores : List (EvalHistoryEntry F) → ℕ → List F
  collect_control_scores history before =
      map (λ e. e.quality_score) (filter_by (λ e. ltb e.at before) history)

  -- meanAndVariance, with Bessel's correction.
  unfoldable pub mean_and_variance : List F → F × F
  unfolding sum_from squares_from
  mean_and_variance [] = (zero_f, zero_f)
  mean_and_variance (s ∷ []) = (fl.div (sum_from zero_f (s ∷ [])) (fl.of_nat 1), zero_f)
  mean_and_variance (s ∷ t ∷ scores) =
      let all = s ∷ t ∷ scores in
      let n = fl.of_nat (length all) in
      let mean = fl.div (sum_from zero_f all) n in
      (mean, fl.div (squares_from mean zero_f all) (fl.sub n one_f))

  -- logBeta.
  unfoldable pub log_beta : F → F → F
  log_beta a b = fl.sub (fl.add (fl.lgamma a) (fl.lgamma b)) (fl.lgamma (fl.add a b))

  -- `if math.Abs(d) < tiny { d = tiny }`, with `tiny` 1e-30.
  unfoldable pub at_least_tiny : F → F
  at_least_tiny d = let tiny = fl.ratio 1 (10 ^ 30) in if fl.lt (abs d) tiny then tiny else d

  -- The loop of betaContinuedFraction, with the rounds left and the round's number `m`.
  beta_rounds : ℕ → ℕ → F → F → F → F → F → F → F
  unfolding at_least_tiny
  beta_rounds zero m a b x c d h = h
  beta_rounds (suc left) m a b x c d h =
      let mf = fl.of_nat m in
      let m2 = fl.mul (fl.of_nat 2) mf in
      let qab = fl.add a b in
      let qap = fl.add a one_f in
      let qam = fl.sub a one_f in
      let even =
        fl.div (fl.mul (fl.mul mf (fl.sub b mf)) x) (fl.mul (fl.add qam m2) (fl.add a m2)) in
      let d1 = fl.div one_f (at_least_tiny (fl.add one_f (fl.mul even d))) in
      let c1 = at_least_tiny (fl.add one_f (fl.div even c)) in
      let h1 = fl.mul h (fl.mul d1 c1) in
      let odd =
        fl.div (fl.mul (fl.mul (fl.sub zero_f (fl.add a mf)) (fl.add qab mf)) x)
          (fl.mul (fl.add a m2) (fl.add qap m2)) in
      let d2 = fl.div one_f (at_least_tiny (fl.add one_f (fl.mul odd d1))) in
      let c2 = at_least_tiny (fl.add one_f (fl.div odd c1)) in
      let delta = fl.mul d2 c2 in
      let h2 = fl.mul h1 delta in
      let rest = beta_rounds left (m + 1) a b x c2 d2 h2 in
      if fl.lt (abs (fl.sub delta one_f)) (fl.ratio 3 (10 ^ 7)) then h2 else rest

  unfoldable pub beta_continued_fraction : F → F → F → F
  unfolding beta_rounds at_least_tiny
  beta_continued_fraction a b x =
      let start = fl.sub one_f (fl.div (fl.mul (fl.add a b) x) (fl.add a one_f)) in
      let d = fl.div one_f (at_least_tiny start) in beta_rounds 200 1 a b x one_f d d

  -- regularizedIncompleteBeta.
  unfoldable pub regularized_incomplete_beta : F → F → F → F
  unfolding beta_continued_fraction log_beta
  regularized_incomplete_beta a b x =
      let lbeta = log_beta a b in
      let left = fl.add (fl.mul a (fl.log x)) (fl.mul b (fl.log (fl.sub one_f x))) in
      let right = fl.add (fl.mul b (fl.log (fl.sub one_f x))) (fl.mul a (fl.log x)) in
      let low =
        fl.mul (beta_continued_fraction a b x) (fl.exp (fl.sub (fl.sub left (fl.log a)) lbeta)) in
      let high = fl.sub one_f (
        fl.mul (beta_continued_fraction b a (fl.sub one_f x))
          (fl.exp (fl.sub (fl.sub right (fl.log b)) lbeta))) in
      if fl.lt x zero_f || gt x one_f
      then zero_f
      else if fl.eq x zero_f
      then zero_f
      else if fl.eq x one_f
      then one_f
      else if fl.lt x (fl.div (fl.add a one_f) (fl.add (fl.add a b) (fl.of_nat 2)))
      then low
      else high

  -- tDistPValue.
  unfoldable pub t_dist_p_value : F → F → F
  t_dist_p_value t df =
      let x = fl.div df (fl.add df (fl.mul t t)) in
      regularized_incomplete_beta (fl.div df (fl.of_nat 2)) (fl.ratio 5 10) x

  -- welchTTest from the two means, variances and sizes.
  unfoldable pub welch_from : F × F → F × F → F → F → F × Bool
  unfolding t_dist_p_value
  welch_from (mean_a, var_a) (mean_b, var_b) n1 n2 =
      let se1 = fl.div var_a n1 in
      let se2 = fl.div var_b n2 in
      let both = fl.add se1 se2 in
      let se = fl.sqrt both in
      let t = fl.div (fl.sub mean_a mean_b) se in
      let df = fl.div (fl.mul both both) (
        fl.add (fl.div (fl.mul se1 se1) (fl.sub n1 one_f))
          (fl.div (fl.mul se2 se2) (fl.sub n2 one_f))) in
      let p = t_dist_p_value (abs t) df in
      if fl.eq se zero_f then (one_f, gt mean_a mean_b) else (p, gt mean_a mean_b)

  -- welchTTest: the two-tailed p-value, and whether the first mean is the larger.
  unfoldable pub welch_t_test : List F → List F → F × Bool
  unfolding welch_from mean_and_variance
  welch_t_test a b =
      if ltb (length a) 2 || ltb (length b) 2
      then (one_f, false)
      else welch_from (mean_and_variance a) (mean_and_variance b) (fl.of_nat (length a))
          (fl.of_nat (length b))

  -- computeStats: the mean and the population standard deviation.
  unfoldable pub compute_stats : List F → F × F
  unfolding sum_from squares_from
  compute_stats vals =
      let n = fl.of_nat (length vals) in
      let mean = fl.div (sum_from zero_f vals) n in
      (mean, fl.sqrt (fl.div (squares_from mean zero_f vals) n))
