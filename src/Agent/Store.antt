-- ===== src/Agent/Store.antt =====
-- The methods of `StateStore` (unoq_ota/state.py), on the state file of the device, and the agent's
-- `_try_store` and `_set`.
use unoq_ota.Prelude.{
  ℤ, suc_ℤ, String, Bool, Option, none, some, [], ◌∷◌, ◌++◌, lookup, insert, contains,
  if◌then◌else◌,
}
use unoq_ota.Python.{Python}
use unoq_ota.State
use unoq_ota.State.{State, Phase, or_zero}
use unoq_ota.Agent.World.{Env, save}
use unoq_ota.Agent.Cycle.{Cycle, pure, swallow, perform, ◌>>=◌}

-- `attempts.get(version, 0)`
abbrev pub attempts_in : State → String → ℤ
attempts_in s v = or_zero (lookup v s.attempts)

abbrev pub with_attempt : State → String → State
with_attempt s v = record s { attempts = insert v (suc_ℤ (attempts_in s v)) s.attempts }

abbrev pub with_poisoned : State → String → State
with_poisoned s v = record s {
  poisoned = if contains s.poisoned v then s.poisoned else s.poisoned ++ v ∷ [];
}

-- What `_set` does to the version: leaves it, clears it, or puts one.
pub data Label : Type 0 where
  keep clear : Label
  put : String → Label

abbrev pub relabel : Label → Option String → Option String
relabel keep v = v
relabel clear v = none
relabel (put v) _ = some v

module _ {py : Python} (env : Env py) where
  abbrev pub load_state : Cycle py State
  load_state w = (State.load py w.state_file, w)

  abbrev pub save_state : State → Cycle py (Unit {0})
  save_state s = perform env (save s)

  unfoldable pub attempts_for : String → Cycle py ℤ
  attempts_for v = do s ← load_state; pure (attempts_in s v)

  unfoldable pub record_attempt : String → Cycle py (Unit {0})
  record_attempt v = do s ← load_state; save_state (with_attempt s v)

  unfoldable pub poison : String → Cycle py (Unit {0})
  poison v = do s ← load_state; save_state (with_poisoned s v)

  unfoldable pub is_poisoned : String → Cycle py Bool
  is_poisoned v = do s ← load_state; pure (contains s.poisoned v)

  abbrev pub labelled : Phase → Label → State → State
  labelled phase label s = record s {
    phase = phase;
    core_version = some env.target.core_version;
    version = relabel label s.version;
  }

  -- `_set`; `swallow` is `_try_store`
  unfoldable pub set_phase : Phase → Label → Cycle py (Unit {0})
  set_phase phase label = swallow (do s ← load_state; save_state (labelled phase label s))
