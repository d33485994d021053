-- ===== src/Kube/Exec/Runs.antt =====
-- Where a run of a program goes on, where it stops, and what it returns.
use std.Path.{subst}
use agentroll.Prelude.{◌≡◌, ◌⊎◌, inl, inr, refl, String, Bool, true, false, if◌then◌else◌}
use agentroll.Kube.Client.{Err, Result, ok, err}
use agentroll.Kube.Exec.{Exec, World, ◌>>=◌, ◌>>◌, continue, wrapping, wrap_error, pure, raise}

-- The answer to a write.
pub Result-cases : (r : Result (Unit {0})) → (r ≡ ok tt) ⊎ ((e : Err) × (r ≡ err e))
Result-cases (ok tt) = inl refl
Result-cases (err e) = inr (e, refl)

-- A program that ends without an error goes on in the world that it leaves.
pub onward :
    {F A B : Type 0} (m : Exec F A) (f : A → Exec F B) (w : World F) (a : A)
    → (m w).0 ≡ ok a
    → (m >>= f) w ≡ f a (m w).1
unfolding ◌>>=◌
onward m f w a e = rw e refl

module _ {F B : Type 0} where
  -- Two programs that end without an error in a row: so does each.
  pub in_a_row :
      (m : Exec F (Unit {0})) (n : Exec F B) (w : World F) (b : B)
      → ((m >> n) w).0 ≡ ok b
      → ((m w).0 ≡ ok tt) × ((n (m w).1).0 ≡ ok b) × (((m >> n) w).1 ≡ (n (m w).1).1)
  unfolding ◌>>=◌
  in_a_row m n w b h = split (m w).0 h
    where
      split :
          (r : Result (Unit {0}))
          → (continue r (λ _. n) (m w).1).0 ≡ ok b
          → (r ≡ ok tt) × ((n (m w).1).0 ≡ ok b) × ((continue r (λ _. n) (m w).1).1 ≡ (n (m w).1).1)
      split (ok _) d = (refl, d, refl)
      split (err e) d = cc

-- A program that ends in an error ends what comes after it.
pub stopped :
    {F A B : Type 0} (m : Exec F A) (f : A → Exec F B) (w : World F) (e : Err)
    → (m w).0 ≡ err e
    → (m >>= f) w ≡ (err e, (m w).1)
unfolding ◌>>=◌
stopped m f w e h = rw h refl

-- Whatever a program returns without an error, with the world that it leaves, satisfies `P`.
pub record Returns {F A : Type 0} (P : A → World F → Type 0) (m : Exec F A) : Type 0 where
  pub at : (w : World F) (a : A) → (m w).0 ≡ ok a → P a (m w).1

module _ {F A B : Type 0} {P : B → World F → Type 0} where
  then-Returns :
      (r : Result A) (f : A → Exec F B) (w : World F)
      → ((a : A) → Returns P (f a))
      → (b : B) → (continue r f w).0 ≡ ok b
      → P b (continue r f w).1
  then-Returns (ok a) f w t b h = (t a).at w b h
  then-Returns (err e) f w t b h = cc

  pub Returns-bind :
      (m : Exec F A) (f : A → Exec F B) → ((a : A) → Returns P (f a)) → Returns P (m >>= f)
  unfolding ◌>>=◌
  Returns-bind m f t = record { at = λ w b h. then-Returns (m w).0 f (m w).1 t b h }

module _ {F A B : Type 0} (P : B → World F → Type 0) where
  known-Returns :
      (Q : A → World F → Type 0) (r : Result A) (f : A → Exec F B) (w : World F)
      → ((a : A) → r ≡ ok a → Q a w)
      → ((a : A) (w : World F) → Q a w → (b : B) → (f a w).0 ≡ ok b → P b (f a w).1)
      → (b : B) → (continue r f w).0 ≡ ok b
      → P b (continue r f w).1
  known-Returns Q (ok a) f w k t b h = t a w (k a refl) b h
  known-Returns Q (err e) f w k t b h = cc

  -- A bind whose second program may use what the first returns.
  pub Returns-then :
      (Q : A → World F → Type 0) (m : Exec F A) (f : A → Exec F B)
      → Returns Q m
      → ((a : A) (w : World F) → Q a w → (b : B) → (f a w).0 ≡ ok b → P b (f a w).1)
      → Returns P (m >>= f)
  unfolding ◌>>=◌
  Returns-then Q m f s t = record {
    at = λ w b h. known-Returns Q (m w).0 f (m w).1 (λ a e. s.at w a e) t b h;
  }

unwrapped :
    {A : Type 0} (text : String) (r : Result A) (a : A) → wrap_error text r ≡ ok a → r ≡ ok a
unwrapped text (ok x) a h = h
unwrapped text (err e) a h = cc

ok-inj : {A : Type 0} {a b : A} → ok a ≡ ok b → a ≡ b
ok-inj h = cc

module _ {F A : Type 0} {P : A → World F → Type 0} where
  pub Returns-wrapping : (text : String) (m : Exec F A) → Returns P m → Returns P (wrapping text m)
  unfolding wrapping
  Returns-wrapping text m s = record { at = λ w a h. s.at w a (unwrapped text (m w).0 a h) }

  pub Returns-pure : (a : A) → ((w : World F) → P a w) → Returns P (pure a)
  unfolding pure
  Returns-pure a p = record { at = λ w b h. subst (λ x. P x w) (ok-inj h) (p w) }

  pub Returns-raise : (e : Err) → Returns P (raise e)
  unfolding raise
  Returns-raise e = record { at = λ w b h. cc }

  pub Returns-if :
      (b : Bool) (m n : Exec F A) → Returns P m → Returns P n → Returns P (if b then m else n)
  Returns-if true m n s t = s
  Returns-if false m n s t = t
