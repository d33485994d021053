-- ===== src/Kube/Exec.antt =====
-- A pass of the reconciler: a state that survives errors (the in-memory AgentDeployment, the events
-- recorded and the calls made, newest first), and a result.
pub mod Sends
pub mod Keeps
pub mod Atomic
pub mod Runs
use agentroll.Prelude.{String, List, ◌∷◌, Bool, true, false, Option, none, some}
use agentroll.Api.{AgentDeployment}
use agentroll.Kube.Client.{Err, Result, ok, err, Call, read, Kind, Env, wrap}

pub data Severity : Type 0 where
  normal warning : Severity

pub record Event : Type 0 where
  pub severity : Severity
  pub reason : String
  pub message : String

pub record World (F : Type 0) : Type 0 where
  pub agent : AgentDeployment F
  pub events : List Event
  pub log : List (Call F)

abbrev pub Exec : Type 0 → Type 0 → Type 0
Exec F A = World F → Result A × World F

abbrev pub wrap_error : {A : Type 0} → String → Result A → Result A
wrap_error text (ok a) = ok a
wrap_error text (err e) = err (wrap text e)

module _ {F A : Type 0} where
  unfoldable pub pure : A → Exec F A
  pure a w = (ok a, w)

  unfoldable pub raise : Err → Exec F A
  raise e w = (err e, w)

  unfoldable pub gets : (World F → A) → Exec F A
  gets f w = (ok (f w), w)

  -- The value or the error of a call, as a value: `if err != nil` is then a case of the program.
  unfoldable pub try : Exec F A → Exec F (Result A)
  try m w = let (r, w') = m w in (ok r, w')

  -- `if err != nil { return fmt.Errorf("…: %w", err) }`.
  unfoldable pub wrapping : String → Exec F A → Exec F A
  wrapping text m w = let (r, w') = m w in (wrap_error text r, w')

module _ {F : Type 0} where
  unfoldable pub modify : (AgentDeployment F → AgentDeployment F) → Exec F (Unit {0})
  modify f w = (ok tt, record w { agent = f w.agent })

  unfoldable pub emit : Severity → String → String → Exec F (Unit {0})
  emit severity reason message w = (
    ok tt,
    record w {
      events = record { severity = severity; reason = reason; message = message } ∷ w.events;
    },
  )

  -- A call that writes: it is logged, whatever the answer.
  unfoldable pub perform : Env F → Call F → Exec F (Unit {0})
  perform env call w = (env.write w.log call, record w { log = call ∷ w.log })

  -- A call that reads, with the field of the environment that answers it.
  unfoldable pub ask : {A : Type 0} → Kind → String → (List (Call F) → String → Result A) → Exec F A
  ask kind name answer w = (answer w.log name, record w { log = read kind name ∷ w.log })

module _ {F A : Type 0} where
  -- A call to another service, with its answer.
  unfoldable pub request : Call F → (List (Call F) → Result A) → Exec F A
  request call answer w = (answer w.log, record w { log = call ∷ w.log })

module _ {F A B : Type 0} where
  abbrev pub continue : Result A → (A → Exec F B) → Exec F B
  continue (ok a) f w = f a w
  continue (err e) f w = (err e, w)

  infixl 5 ◌>>=◌ ◌>>◌
  -- Opening this opens the other combinators too.
  unfoldable pub ◌>>=◌ : Exec F A → (A → Exec F B) → Exec F B
  unfolding pure raise gets try wrapping modify emit perform ask request
  ◌>>=◌ m f w = let (r, w') = m w in continue r f w'

  abbrev pub ◌>>◌ : Exec F A → Exec F B → Exec F B
  m >> n = m >>= λ _. n
