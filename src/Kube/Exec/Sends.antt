-- ===== src/Kube/Exec/Sends.antt =====
-- The calls that a part of the program can make, one rule for each way to build a program. `Sends Q m`
-- says that every call that `m` makes satisfies `Q`, whatever the environment has answered.
use agentroll.Prelude.{
  ◌≡◌, refl, ◌∙◌, ap, sym, Bool, true, false, List, [], ◌∷◌, ◌++◌, All, All-append, if◌then◌else◌,
  String,
}
use mathlib.Core.List.{append_assoc}
use agentroll.Api.{AgentDeployment}
use agentroll.Kube.Client.{Err, Result, ok, err, Call, read, Kind, Env}
use agentroll.Kube.Exec.{
  Exec, World, Severity, pure, raise, gets, try, wrapping, modify, emit, perform, ask, request,
  ◌>>=◌, continue,
}

-- The calls made between two worlds.
abbrev pub Sent : {F : Type 0} → (Call F → Type 0) → World F → World F → Type 0
Sent {F} Q w w' = (calls : List (Call F)) × (w'.log ≡ calls ++ w.log) × All Q calls

pub record Sends {F A : Type 0} (Q : Call F → Type 0) (m : Exec F A) : Type 0 where
  pub at : (w : World F) → Sent Q w (m w).1

module _ {F : Type 0} {Q : Call F → Type 0} where
  pub Sent-trans : (u v w : World F) → Sent Q u v → Sent Q v w → Sent Q u w
  Sent-trans u v w (xs, e, p) (ys, d, q) =
      (ys ++ xs, d ∙ ap (λ l. ys ++ l) e ∙ sym (append_assoc ys xs u.log), All-append Q ys xs q p)

module _ {F A : Type 0} {Q : Call F → Type 0} where
  pub Sends-pure : (a : A) → Sends Q (pure {F = F} a)
  unfolding pure
  Sends-pure a = record { at = λ w. ([], refl, tt) }

  pub Sends-raise : (e : Err) → Sends Q (raise {F = F} {A = A} e)
  unfolding raise
  Sends-raise e = record { at = λ w. ([], refl, tt) }

  pub Sends-gets : (f : World F → A) → Sends Q (gets f)
  unfolding gets
  Sends-gets f = record { at = λ w. ([], refl, tt) }

  pub Sends-try : (m : Exec F A) → Sends Q m → Sends Q (try m)
  unfolding try
  Sends-try m s = record { at = λ w. s.at w }

  pub Sends-wrapping : (text : String) (m : Exec F A) → Sends Q m → Sends Q (wrapping text m)
  unfolding wrapping
  Sends-wrapping text m s = record { at = λ w. s.at w }

  pub Sends-if :
      (b : Bool) (m n : Exec F A)
      → (b ≡ true → Sends Q m)
      → (b ≡ false → Sends Q n)
      → Sends Q (if b then m else n)
  Sends-if true m n h k = h refl
  Sends-if false m n h k = k refl

  pub Sends-ask :
      (kind : Kind) (name : String) (answer : List (Call F) → String → Result A)
      → Q (read kind name)
      → Sends Q (ask kind name answer)
  unfolding ask
  Sends-ask kind name answer q = record { at = λ w. (read kind name ∷ [], refl, (q, tt)) }

  pub Sends-request :
      (call : Call F) (answer : List (Call F) → Result A) → Q call → Sends Q (request call answer)
  unfolding request
  Sends-request call answer q = record { at = λ w. (call ∷ [], refl, (q, tt)) }

module _ {F A B : Type 0} {Q : Call F → Type 0} where
  then-Sent :
      (r : Result A) (f : A → Exec F B) (w : World F)
      → ((a : A) → Sends Q (f a))
      → Sent Q w (continue r f w).1
  then-Sent (ok a) f w s = (s a).at w
  then-Sent (err e) f w s = ([], refl, tt)

  -- A bind at one world, where the value of the first program is known.
  pub Sent-bind :
      (m : Exec F A) (f : A → Exec F B) (w : World F)
      → Sends Q m
      → ((a : A) → (m w).0 ≡ ok a → Sent Q (m w).1 (f a (m w).1).1)
      → Sent Q w ((m >>= f) w).1
  unfolding ◌>>=◌
  Sent-bind m f w s t =
      Sent-trans w (m w).1 (continue (m w).0 f (m w).1).1 (s.at w) (next (m w).0 t)
    where
      next :
          (r : Result A)
          → ((a : A) → r ≡ ok a → Sent Q (m w).1 (f a (m w).1).1)
          → Sent Q (m w).1 (continue r f (m w).1).1
      next (ok a) h = h a refl
      next (err e) h = ([], refl, tt)

  pub Sends-bind :
      (m : Exec F A) (f : A → Exec F B) → Sends Q m → ((a : A) → Sends Q (f a)) → Sends Q (m >>= f)
  unfolding ◌>>=◌
  Sends-bind m f s t = record {
    at = λ w.
        Sent-trans w (m w).1 (continue (m w).0 f (m w).1).1 (s.at w)
          (then-Sent (m w).0 f (m w).1 t);
  }

All-map :
    {C : Type 0} {P Q : C → Type 0} → ((c : C) → P c → Q c) → (cs : List C) → All P cs → All Q cs
All-map f [] _ = tt
All-map f (c ∷ cs) (p, ps) = (f c p, All-map f cs ps)

pub Sends-map :
    {F A : Type 0} {P Q : Call F → Type 0} (m : Exec F A)
    → Sends P m
    → ((c : Call F) → P c → Q c)
    → Sends Q m
Sends-map m s f = record {
  at = λ w. let (calls, log, sent) = s.at w in (calls, log, All-map f calls sent);
}

module _ {F : Type 0} {Q : Call F → Type 0} where
  pub Sends-modify : (f : AgentDeployment F → AgentDeployment F) → Sends Q (modify f)
  unfolding modify
  Sends-modify f = record { at = λ w. ([], refl, tt) }

  pub Sends-emit :
      (severity : Severity) (reason message : String) → Sends Q (emit severity reason message)
  unfolding emit
  Sends-emit severity reason message = record { at = λ w. ([], refl, tt) }

  pub Sends-perform : (env : Env F) (call : Call F) → Q call → Sends Q (perform env call)
  unfolding perform
  Sends-perform env call q = record { at = λ w. (call ∷ [], refl, (q, tt)) }

pub ruleset sends_rules = (
  Sends-pure, Sends-raise, Sends-gets, Sends-try, Sends-wrapping, Sends-if, Sends-ask, Sends-bind,
  Sends-modify, Sends-emit, Sends-perform, Sends-request,
)
