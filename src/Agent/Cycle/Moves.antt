-- ===== src/Agent/Cycle/Moves.antt =====
-- Triples of device code: from a world where `P` holds, the code ends in one where `Q` does, whether
-- it returns or raises.
use unoq_ota.Prelude.{Bool, true, false, if◌then◌else◌}
use unoq_ota.Outcome.{Outcome, ok, raised, Raised}
use unoq_ota.Python.{Python}
use unoq_ota.Agent.World.{World}
use unoq_ota.Agent.Cycle.{Cycle, pure, lift, raise, caught, swallow, ◌>>=◌}

pub record Moves {py : Python} {A : Type 0} (P Q : World py → Type 0) (m : Cycle py A)
    : Type 0 where
  pub at : (w : World py) → P w → Q (m w).1

module _ {py : Python} {A : Type 0} {P : World py → Type 0} where
  pub Moves-pure : (a : A) → Moves P P (pure a)
  Moves-pure a = record { at = λ w h. h }

  pub Moves-lift : (r : Outcome A) → Moves P P (lift r)
  Moves-lift r = record { at = λ w h. h }

  pub Moves-raise : (e : Raised) → Moves P P (raise {A = A} e)
  Moves-raise e = record { at = λ w h. h }

module _ {py : Python} {A : Type 0} {P Q : World py → Type 0} where
  pub Moves-caught : (m : Cycle py A) → Moves P Q m → Moves P Q (caught m)
  Moves-caught m k = record { at = k.at }

  pub Moves-if :
      (b : Bool) (m n : Cycle py A) → Moves P Q m → Moves P Q n → Moves P Q (if b then m else n)
  Moves-if true m n km kn = km
  Moves-if false m n km kn = kn

  pub Moves-of :
      {R : World py → Type 0} (m : Cycle py A)
      → Moves P Q m
      → ((w : World py) → Q w → R w)
      → Moves P R m
  Moves-of m k imp = record { at = λ w h. imp (m w).1 (k.at w h) }

module _ {py : Python} {P Q : World py → Type 0} where
  pub Moves-swallow : (m : Cycle py (Unit {0})) → Moves P Q m → Moves P Q (swallow m)
  unfolding swallow
  Moves-swallow m k = record { at = k.at }

module _ {py : Python} {A B : Type 0} {Q R : World py → Type 0} where
  proceed_to :
      (r : Outcome A) (f : A → Cycle py B)
      → ((a : A) → Moves Q R (f a))
      → ((w : World py) → Q w → R w)
      → Moves Q R (lift r >>= f)
  unfolding ◌>>=◌
  proceed_to (ok a) f k imp = k a
  proceed_to (raised e) f k imp = record { at = imp }

module _ {py : Python} {A B : Type 0} {P Q R : World py → Type 0} where
  -- where the first part raises, what it left must do
  pub Moves-bind_to :
      (m : Cycle py A) (f : A → Cycle py B)
      → Moves P Q m
      → ((w : World py) → Q w → R w)
      → ((a : A) → Moves Q R (f a))
      → Moves P R (m >>= f)
  unfolding ◌>>=◌
  Moves-bind_to m f km imp k = record {
    at = λ w h. let (r, w') = m w in (proceed_to r f k imp).at w' (km.at w h);
  }

module _ {py : Python} {A B : Type 0} {P Q : World py → Type 0} where
  pub Moves-bind :
      (m : Cycle py A) (f : A → Cycle py B)
      → Moves P Q m
      → ((a : A) → Moves Q Q (f a))
      → Moves P Q (m >>= f)
  Moves-bind m f km k = Moves-bind_to m f km (λ w h. h) k

pub ruleset moves_rules =
    (Moves-pure, Moves-lift, Moves-raise, Moves-caught, Moves-if, Moves-swallow, Moves-bind)
