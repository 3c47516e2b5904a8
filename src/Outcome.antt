-- ===== src/Outcome.antt =====
-- Results of Python code that may raise: the exception classes that the package's handlers tell
-- apart, each with its message, and one for every other subclass of `Exception`.
use unoq_ota.Prelude.{String, ◌≡◌, ◌⊎◌, inl, inr, Bool, refl}

pub data Raised : Type 0 where
  verification_error : String → Bool → Raised  -- the message and `poisonable`
  artifact_error : String → Raised
  flash_error : String → Raised
  host_error : String → Raised
  preflight_error : String → Raised
  state_error : String → Raised
  os_error : String → Raised
  other_error : String → Raised

-- `str(exc)`
abbrev pub message : Raised → String
message (verification_error m p) = m
message (artifact_error m) = m
message (flash_error m) = m
message (host_error m) = m
message (preflight_error m) = m
message (state_error m) = m
message (os_error m) = m
message (other_error m) = m

-- The failures for which the agent poisons a version.
abbrev pub is_poisonable : Raised → Bool
is_poisonable (verification_error m poisonable) = poisonable
is_poisonable (artifact_error m) = Bool.true
is_poisonable _ = Bool.false

pub data Outcome {ℓ} (A : Type ℓ) : Type ℓ where
  ok : A → Outcome A
  raised : Raised → Outcome A

infixl 10 ◌>>=◌ ◌>>◌
abbrev pub ◌>>=◌ {ℓ κ} : {A : Type ℓ} {B : Type κ} → Outcome A → (A → Outcome B) → Outcome B
ok a >>= f = f a
raised e >>= f = raised e

abbrev pub ◌>>◌ {ℓ} : {B : Type ℓ} → Outcome (Unit {0}) → Outcome B → Outcome B
m >> k = m >>= λ _. k

-- `if test: raise e`
abbrev pub refuse_if : Bool → Raised → Outcome (Unit {0})
refuse_if Bool.true e = raised e
refuse_if Bool.false e = ok tt

pub Outcome-cases {ℓ} :
    {A : Type ℓ} (r : Outcome A) → ((a : A) × (r ≡ ok a)) ⊎ ((e : Raised) × (r ≡ raised e))
Outcome-cases (ok a) = inl (a, refl)
Outcome-cases (raised e) = inr (e, refl)

-- What a chain that returned has passed.
pub bind-ok :
    {A B : Type 0} (r : Outcome A) (f : A → Outcome B) (b : B)
    → (r >>= f) ≡ ok b
    → (a : A) × (r ≡ ok a) × (f a ≡ ok b)
bind-ok (ok a) f b h = (a, refl, h)
bind-ok (raised e) f b h = cc

pub refuse_if-ok : (b : Bool) (e : Raised) → refuse_if b e ≡ ok tt → b ≡ Bool.false
refuse_if-ok Bool.true e h = cc
refuse_if-ok Bool.false e h = refl

-- It returns, and what it returns has the property.
abbrev pub Returns {ℓ} : {A : Type ℓ} → (A → Type 0) → Outcome A → Type 0
Returns P (ok a) = P a
Returns P (raised e) = ⊥

pub Returns-bind {ℓ} :
    {A B : Type ℓ} (r : Outcome A) (f : A → Outcome B) (P : A → Type 0) (Q : B → Type 0)
    → ((a : A) → P a → Returns Q (f a))
    → Returns P r
    → Returns Q (r >>= f)
Returns-bind (ok a) f P Q step h = step a h
Returns-bind (raised e) f P Q step h = absurd h

pub Returns-ok {ℓ} :
    {A : Type ℓ} (P : A → Type 0) (r : Outcome A) → Returns P r → (a : A) × (r ≡ ok a) × P a
Returns-ok P (ok a) h = (a, refl, h)
Returns-ok P (raised e) h = absurd h
