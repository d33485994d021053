-- ===== src/Float/Milli.antt =====
-- Thousandths: a carrier on which the models run in tests. It stands for no claim about `float64`.
use agentroll.Float.{Float64}
pub use agentroll.Int.{ℤ, pos, negsuc}
use agentroll.Prelude.{ℕ, suc, ◌+◌, ◌-◌, ◌*◌, ◌/◌, Bool, some, ltb, leb, ◌&&◌, if◌then◌else◌}

abbrev pos_part : ℤ → ℕ
pos_part (pos n) = n
pos_part (negsuc n) = 0

abbrev neg_part : ℤ → ℕ
neg_part (pos n) = 0
neg_part (negsuc n) = suc n

abbrev magnitude : ℤ → ℕ
magnitude a = pos_part a + neg_part a

abbrev sub_ℕ : ℕ → ℕ → ℤ
sub_ℕ a b = if leb b a then pos (a - b) else negsuc (b - a - 1)

-- A number of the given size, negative when exactly one of the factors is.
abbrev signed_as : ℤ → ℤ → ℕ → ℤ
signed_as (pos _) (pos _) n = pos n
signed_as (negsuc _) (negsuc _) n = pos n
signed_as _ _ n = sub_ℕ 0 n

abbrev pub add : ℤ → ℤ → ℤ
add a b = sub_ℕ (pos_part a + pos_part b) (neg_part a + neg_part b)

abbrev pub sub : ℤ → ℤ → ℤ
sub a b = sub_ℕ (pos_part a + neg_part b) (neg_part a + pos_part b)

abbrev pub mul : ℤ → ℤ → ℤ
mul a b = signed_as a b (magnitude a * magnitude b / 1000)

abbrev pub div : ℤ → ℤ → ℤ
div a b = signed_as a b (magnitude a * 1000 / magnitude b)

abbrev pub lt : ℤ → ℤ → Bool
lt a b = ltb (pos_part a + neg_part b) (pos_part b + neg_part a)

abbrev pub eq : ℤ → ℤ → Bool
eq a b =
    leb (pos_part a + neg_part b) (pos_part b + neg_part a)
    && leb (pos_part b + neg_part a) (pos_part a + neg_part b)

abbrev pub le : ℤ → ℤ → Bool
le a b = leb (pos_part a + neg_part b) (pos_part b + neg_part a)

-- The root is the argument itself, the exponential is 0 and the logarithms are 0: what the tests run
-- needs some functions there and nothing of their values.
instance abbrev pub milli : Float64 ℤ
milli = record {
  of_nat = λ n. pos (n * 1000);
  ratio = λ a b. pos (a * 1000 / b);
  add = add;
  sub = sub;
  mul = mul;
  div = div;
  lt = lt;
  le = le;
  eq = eq;
  sqrt = λ a. a;
  exp = λ a. pos 0;
  log = λ a. pos 0;
  lgamma = λ a. pos 0;
  parse = λ s. some (pos 200000);
  scan = λ s. some (pos 0);
  format = λ verb a. "0";
}
