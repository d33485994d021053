-- ===== src/Kube/Exec/Atomic.antt =====
-- Programs that leave the in-memory AgentDeployment as it was when they end in an error.
use agentroll.Prelude.{◌≡◌, refl, ◌∙◌, Bool, true, false, String, if◌then◌else◌}
use agentroll.Api.{AgentDeployment}
use agentroll.Kube.Client.{Err, Result, ok, err}
use agentroll.Kube.Exec.{Exec, World, Severity, pure, gets, try, modify, emit, ◌>>=◌, continue}
use agentroll.Kube.Exec.Keeps.{Change, Keeps}

-- No change at all.
abbrev pub unchanged : {F : Type 0} → Change F
unchanged = record { Rel = λ a b. b ≡ a; same = λ a. refl; chain = λ a b c p q. q ∙ p }

pub record Total {F A : Type 0} (m : Exec F A) : Type 0 where
  pub at : (w : World F) → (a : A) × ((m w).0 ≡ ok a)

pub record Atomic {F A : Type 0} (m : Exec F A) : Type 0 where
  pub at : (w : World F) (e : Err) → (m w).0 ≡ err e → (m w).1.agent ≡ w.agent

module _ {F A : Type 0} where
  pub Total-pure : (a : A) → Total (pure {F = F} a)
  unfolding pure
  Total-pure a = record { at = λ w. (a, refl) }

  pub Total-gets : (f : World F → A) → Total (gets f)
  unfolding gets
  Total-gets f = record { at = λ w. (f w, refl) }

  pub Total-try : (m : Exec F A) → Total (try m)
  unfolding try
  Total-try m = record { at = λ w. ((m w).0, refl) }

  pub Total-if : (b : Bool) (m n : Exec F A) → Total m → Total n → Total (if b then m else n)
  Total-if true m n h k = h
  Total-if false m n h k = k

  -- A program that cannot fail.
  pub Atomic-Total : (m : Exec F A) → Total m → Atomic m
  Atomic-Total m t = record { at = λ w e h. let (a, d) = t.at w in cc }

  -- A program that changes nothing.
  pub Atomic-Keeps : (m : Exec F A) → Keeps unchanged m → Atomic m
  Atomic-Keeps m k = record { at = λ w e h. k.at w }

  pub Atomic-if : (b : Bool) (m n : Exec F A) → Atomic m → Atomic n → Atomic (if b then m else n)
  Atomic-if true m n h k = h
  Atomic-if false m n h k = k

module _ {F : Type 0} where
  pub Total-modify : (f : AgentDeployment F → AgentDeployment F) → Total (modify f)
  unfolding modify
  Total-modify f = record { at = λ w. (tt, refl) }

  pub Total-emit :
      (severity : Severity) (reason message : String) → Total {F = F} (emit severity reason message)
  unfolding emit
  Total-emit severity reason message = record { at = λ w. (tt, refl) }

module _ {F A B : Type 0} where
  pub Total-bind :
      (m : Exec F A) (f : A → Exec F B) → Total m → ((a : A) → Total (f a)) → Total (m >>= f)
  unfolding ◌>>=◌
  Total-bind m f s t = record { at = λ w. let (a, e) = s.at w in rw e ((t a).at (m w).1) }

  then-Atomic :
      (r : Result A) (f : A → Exec F B) (w : World F)
      → ((a : A) → Atomic (f a))
      → (e : Err) → (continue r f w).0 ≡ err e
      → (continue r f w).1.agent ≡ w.agent
  then-Atomic (ok a) f w t e h = (t a).at w e h
  then-Atomic (err d) f w t e h = refl

  -- A program that changes nothing, and then an atomic one.
  pub Atomic-bind :
      (m : Exec F A) (f : A → Exec F B)
      → Keeps unchanged m
      → ((a : A) → Atomic (f a))
      → Atomic (m >>= f)
  unfolding ◌>>=◌
  Atomic-bind m f s t = record { at = λ w e h. then-Atomic (m w).0 f (m w).1 t e h ∙ s.at w }

pub ruleset total_rules =
    (Total-pure, Total-gets, Total-try, Total-if, Total-modify, Total-emit, Total-bind)

pub ruleset atomic_rules = (Atomic-bind, Atomic-if)
