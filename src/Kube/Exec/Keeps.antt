-- ===== src/Kube/Exec/Keeps.antt =====
-- What a program does to the in-memory AgentDeployment, whatever the environment answers and whether
-- or not the program ends in an error: one rule for each way to build a program.
use agentroll.Prelude.{◌≡◌, refl, Bool, true, false, String, List, if◌then◌else◌}
use agentroll.Api.{AgentDeployment}
use agentroll.Kube.Client.{Err, Result, ok, err, Call, Kind, Env}
use agentroll.Kube.Exec.{
  Exec, World, Severity, pure, raise, gets, try, wrapping, modify, emit, perform, ask, request,
  ◌>>=◌, continue,
}

-- A relation between the agent before and the agent after, which programs can be chained under.
pub record Change (F : Type 0) : Type 1 where
  pub Rel : AgentDeployment F → AgentDeployment F → Type 0
  pub same : (a : AgentDeployment F) → Rel a a
  pub chain : (a b c : AgentDeployment F) → Rel a b → Rel b c → Rel a c

pub record Keeps {F A : Type 0} (C : Change F) (m : Exec F A) : Type 0 where
  pub at : (w : World F) → C.Rel w.agent (m w).1.agent

module _ {F A : Type 0} {C : Change F} where
  pub Keeps-pure : (a : A) → Keeps C (pure {F = F} a)
  unfolding pure
  Keeps-pure a = record { at = λ w. C.same w.agent }

  pub Keeps-raise : (e : Err) → Keeps C (raise {F = F} {A = A} e)
  unfolding raise
  Keeps-raise e = record { at = λ w. C.same w.agent }

  pub Keeps-gets : (f : World F → A) → Keeps C (gets f)
  unfolding gets
  Keeps-gets f = record { at = λ w. C.same w.agent }

  pub Keeps-try : (m : Exec F A) → Keeps C m → Keeps C (try m)
  unfolding try
  Keeps-try m s = record { at = λ w. s.at w }

  pub Keeps-wrapping : (text : String) (m : Exec F A) → Keeps C m → Keeps C (wrapping text m)
  unfolding wrapping
  Keeps-wrapping text m s = record { at = λ w. s.at w }

  pub Keeps-if :
      (b : Bool) (m n : Exec F A)
      → (b ≡ true → Keeps C m)
      → (b ≡ false → Keeps C n)
      → Keeps C (if b then m else n)
  Keeps-if true m n h k = h refl
  Keeps-if false m n h k = k refl

  pub Keeps-ask :
      (kind : Kind) (name : String) (answer : List (Call F) → String → Result A)
      → Keeps C (ask kind name answer)
  unfolding ask
  Keeps-ask kind name answer = record { at = λ w. C.same w.agent }

  pub Keeps-request :
      (call : Call F) (answer : List (Call F) → Result A) → Keeps C (request call answer)
  unfolding request
  Keeps-request call answer = record { at = λ w. C.same w.agent }

module _ {F A B : Type 0} {C : Change F} where
  then-Keeps :
      (r : Result A) (f : A → Exec F B) (w : World F)
      → ((a : A) → Keeps C (f a))
      → C.Rel w.agent (continue r f w).1.agent
  then-Keeps (ok a) f w s = (s a).at w
  then-Keeps (err e) f w s = C.same w.agent

  pub Keeps-bind :
      (m : Exec F A) (f : A → Exec F B) → Keeps C m → ((a : A) → Keeps C (f a)) → Keeps C (m >>= f)
  unfolding ◌>>=◌
  Keeps-bind m f s t = record {
    at = λ w.
        C.chain w.agent (m w).1.agent (continue (m w).0 f (m w).1).1.agent (s.at w)
          (then-Keeps (m w).0 f (m w).1 t);
  }

module _ {F : Type 0} {C : Change F} where
  pub Keeps-modify :
      (f : AgentDeployment F → AgentDeployment F)
      → ((a : AgentDeployment F) → C.Rel a (f a))
      → Keeps C (modify f)
  unfolding modify
  Keeps-modify f h = record { at = λ w. h w.agent }

  pub Keeps-emit :
      (severity : Severity) (reason message : String) → Keeps C (emit severity reason message)
  unfolding emit
  Keeps-emit severity reason message = record { at = λ w. C.same w.agent }

  pub Keeps-perform : (env : Env F) (call : Call F) → Keeps C (perform env call)
  unfolding perform
  Keeps-perform env call = record { at = λ w. C.same w.agent }

pub ruleset keeps_rules = (
  Keeps-pure, Keeps-raise, Keeps-gets, Keeps-try, Keeps-wrapping, Keeps-if, Keeps-ask, Keeps-bind,
  Keeps-modify, Keeps-emit, Keeps-perform, Keeps-request,
)
