-- ===== src/Agent/Cycle.antt =====
-- Code that acts on the device and may raise. What was done before a raise stays done.
pub mod Moves
use unoq_ota.Prelude.{String, Bool, true, false, Option, none, some, List, ◌∷◌}
use unoq_ota.Outcome.{Outcome, ok, raised, Raised}
use unoq_ota.Python.{Python}
use unoq_ota.Agent.World.{World, Env, Event, Operation, done, log, effect}

abbrev pub Cycle : Python → Type 0 → Type 0
Cycle py A = World py → Outcome A × World py

module _ {py : Python} {A : Type 0} where
  abbrev pub pure : A → Cycle py A
  pure a w = (ok a, w)

  abbrev pub lift : Outcome A → Cycle py A
  lift r w = (r, w)

  abbrev pub raise : Raised → Cycle py A
  raise e w = (raised e, w)

  -- `try: m`, with the outcome handed to the clauses that follow
  abbrev pub caught : Cycle py A → Cycle py (Outcome A)
  caught m w = let (r, w') = m w in (ok r, w')

  -- a call of a collaborator, which is entered in the trace
  abbrev pub call : (Outcome A → Event) → (World py → Outcome A) → Cycle py A
  call event f w = let r = f w in (r, log (event r) w)

module _ {py : Python} {A B : Type 0} where
  infixl 10 ◌>>=◌
  abbrev pub proceed : Outcome A → (A → Cycle py B) → Cycle py B
  proceed (ok a) f w = f a w
  proceed (raised e) f w = (raised e, w)

  unfoldable pub ◌>>=◌ : Cycle py A → (A → Cycle py B) → Cycle py B
  ◌>>=◌ m f w = let (r, w') = m w in proceed r f w'

module _ {py : Python} {B : Type 0} where
  infixl 10 ◌>>◌
  abbrev pub ◌>>◌ : Cycle py (Unit {0}) → Cycle py B → Cycle py B
  m >> n = m >>= λ _. n

module _ {py : Python} where
  -- `try: m`, `except Exception: log`
  unfoldable pub swallow : Cycle py (Unit {0}) → Cycle py (Unit {0})
  swallow m w = let (r, w') = m w in (ok tt, w')

  abbrev pub settle : Operation → Outcome (Unit {0}) → World py → Outcome (Unit {0}) × World py
  settle op (ok t) w = (ok tt, log (done op true) (effect op w))
  settle op (raised e) w = (raised e, log (done op false) w)

  -- an operation on the state directory
  unfoldable pub perform : Env py → Operation → Cycle py (Unit {0})
  perform env op w = settle op (env.io w op) w
