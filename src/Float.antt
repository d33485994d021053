-- ===== src/Float.antt =====
-- What the controller does with `float64`: an interface, since the kernel has no floating point.
-- Quality scores, means, variances and p-values are values of the carrier `F`. No law of arithmetic
-- is assumed here; a theorem that needs one takes it as a hypothesis of its own.
pub mod Milli
use agentroll.Prelude.{ℕ, String, Bool, Option, if◌then◌else◌}

pub record Float64 (F : Type 0) : Type 0 where
  -- `float64(n)`
  pub of_nat : ℕ → F
  -- the constant written as `a / b` in decimal: `0.02` is `ratio 2 100`
  pub ratio : ℕ → ℕ → F
  pub add : F → F → F
  pub sub : F → F → F
  pub mul : F → F → F
  pub div : F → F → F
  pub lt : F → F → Bool
  pub le : F → F → Bool
  pub eq : F → F → Bool
  -- math.Sqrt, math.Exp, math.Log and the first result of math.Lgamma
  pub sqrt : F → F
  pub exp : F → F
  pub log : F → F
  pub lgamma : F → F
  -- strconv.ParseFloat, `none` for an error
  pub parse : String → Option F
  -- fmt.Sscanf(s, "%f", &v), `none` for an error
  pub scan : String → Option F
  -- fmt.Sprintf with one verb
  pub format : String → F → String

module _ {F : Type 0} ⦃fl : Float64 F⦄ where
  abbrev pub zero_f : F
  zero_f = fl.of_nat 0

  abbrev pub one_f : F
  one_f = fl.of_nat 1

  -- `-x`
  abbrev pub neg : F → F
  neg x = fl.sub zero_f x

  -- `a > b` and `a >= b`, which are false at NaN as `<` is
  abbrev pub gt : F → F → Bool
  gt a b = fl.lt b a

  abbrev pub ge : F → F → Bool
  ge a b = fl.le b a

  -- math.Abs
  abbrev pub abs : F → F
  abs x = if fl.lt x zero_f then neg x else x
