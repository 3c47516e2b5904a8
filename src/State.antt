-- ===== src/State.antt =====
-- unoq_ota/state.py: the persisted state, and how a file is read back whatever it holds. The methods
-- that touch the file are in Agent/Store.antt, where it is part of the device.
pub mod Roundtrip
pub mod Robust
use unoq_ota.Prelude.{
  ℕ, ℤ, pos, String, Bool, true, false, Option, none, some, List, [], ◌∷◌, Dict, ◌==◌,
  if◌then◌else◌,
}
use unoq_ota.Outcome.{Outcome, ok, raised, state_error, other_error}
use unoq_ota.Python.{
  Value, null, bool, int, float, str, arr, obj, Items, nil, cons, Fields, end, field, get_field,
  as_str, or_null, find_field, Python, to_int,
}

abbrev pub max_attempts : ℕ
max_attempts = 2

pub data Phase : Type 0 where
  idle downloading verifying staged flashing health_check committed rolling_back rolled_back
        rejected :
      Phase

-- `phase.value`
unfoldable pub phase_value : Phase → String
phase_value idle = "idle"
phase_value downloading = "downloading"
phase_value verifying = "verifying"
phase_value staged = "staged"
phase_value flashing = "flashing"
phase_value health_check = "health_check"
phase_value committed = "committed"
phase_value rolling_back = "rolling_back"
phase_value rolled_back = "rolled_back"
phase_value rejected = "rejected"

abbrev phases : List Phase
phases =
    idle ∷ downloading ∷ verifying ∷ staged ∷ flashing ∷ health_check ∷ committed ∷ rolling_back
    ∷ rolled_back ∷ rejected ∷ []

-- The member of an enumeration with this value, where there is one.
unfoldable pub phase_among : List Phase → String → Option Phase
unfolding phase_value
phase_among [] s = none
phase_among (p ∷ ps) s = if phase_value p == s then some p else phase_among ps s

pub record State : Type 0 where
  pub phase : Phase
  pub version : Option String
  pub attempts : Dict ℤ
  pub poisoned : List String
  pub sequence : ℤ
  pub core_version : Option String
  pub committed_version : Option String
  pub previous_version : Option String
  pub last_verified_sequence : ℤ
  pub last_verified_version : Option String

abbrev pub fresh : State
fresh = record {
  phase = idle;
  version = none;
  attempts = [];
  poisoned = [];
  sequence = pos 0;
  core_version = none;
  committed_version = none;
  previous_version = none;
  last_verified_sequence = pos 0;
  last_verified_version = none;
}

-- The entries whose count `int` accepts.
unfoldable pub sanitize_counts : Python → Fields → Dict ℤ
sanitize_counts py end = []
sanitize_counts py (field k v d) =
    let rest = sanitize_counts py d in elim (to_int py v) [ none ↦ rest | some n ↦ (k, n) ∷ rest ]

unfoldable pub sanitize_attempts : Python → Value → Dict ℤ
unfolding sanitize_counts
sanitize_attempts py (obj d) = sanitize_counts py d
sanitize_attempts py _ = []

unfoldable pub texts_of : Items → List String
texts_of nil = []
texts_of (cons v items) =
    let rest = texts_of items in elim (as_str v) [ none ↦ rest | some s ↦ s ∷ rest ]

unfoldable pub sanitize_poisoned : Value → List String
unfolding texts_of
sanitize_poisoned (arr items) = texts_of items
sanitize_poisoned _ = []

abbrev or_idle : Option Phase → Phase
or_idle none = idle
or_idle (some p) = p

unfoldable pub sanitize_phase : Value → Phase
unfolding phase_among
sanitize_phase (str s) = or_idle (phase_among phases s)
sanitize_phase _ = idle

abbrev pub or_zero : Option ℤ → ℤ
or_zero none = pos 0
or_zero (some n) = n

-- `_sanitize_sequence`
abbrev pub sanitize_sequence : Python → Value → ℤ
sanitize_sequence py v = or_zero (to_int py v)

-- The last step of `StateStore.load`, with `_sanitize_optional_str` spelled `as_str`.
unfoldable pub sanitize : Python → Fields → State
unfolding sanitize_attempts sanitize_poisoned sanitize_phase
sanitize py raw = record {
  phase = sanitize_phase (get_field "phase" raw);
  version = as_str (get_field "version" raw);
  attempts = sanitize_attempts py (get_field "attempts" raw);
  poisoned = sanitize_poisoned (get_field "poisoned" raw);
  sequence = sanitize_sequence py (get_field "sequence" raw);
  core_version = as_str (get_field "core_version" raw);
  committed_version = as_str (get_field "committed_version" raw);
  previous_version = as_str (get_field "previous_version" raw);
  last_verified_sequence = sanitize_sequence py (get_field "last_verified_sequence" raw);
  last_verified_version = as_str (get_field "last_verified_version" raw);
}

-- What `read_text` meets at the path: nothing, a file that the process may not read, bytes that are
-- no text (a `UnicodeDecodeError`, which is a `ValueError`), or a text.
pub data StateFile (Text : Type 0) : Type 0 where
  missing : StateFile Text
  unreadable : String → StateFile Text
  undecodable : String → StateFile Text
  text : Text → StateFile Text

unfoldable pub state_of : Python → Option Value → State
unfolding sanitize
state_of py (some (obj raw)) = sanitize py raw
state_of py _ = fresh

-- `StateStore.load`
unfoldable pub load : (py : Python) → StateFile py.Text → Outcome State
unfolding state_of
load py missing = ok fresh
load py (unreadable m) = raised (state_error m)
load py (undecodable m) = raised (other_error m)
load py (text t) = ok (state_of py (py.loads t))

abbrev pub text_or_null : Option String → Value
text_or_null none = null
text_or_null (some s) = str s

unfoldable pub counts_of : Dict ℤ → Fields
counts_of [] = end
counts_of ((k, n) ∷ d) = field k (int n) (counts_of d)

unfoldable pub items_of : List String → Items
items_of [] = nil
items_of (s ∷ l) = cons (str s) (items_of l)

-- The `payload` of `StateStore.save`: `asdict(state)` with the phase's value.
unfoldable pub payload_of : State → Value
unfolding phase_value counts_of items_of
payload_of s = obj (
    field "phase" (str (phase_value s.phase)) (
      field "version" (text_or_null s.version) (
        field "attempts" (obj (counts_of s.attempts)) (
          field "poisoned" (arr (items_of s.poisoned)) (
            field "sequence" (int s.sequence) (
              field "core_version" (text_or_null s.core_version) (
                field "committed_version" (text_or_null s.committed_version) (
                  field "previous_version" (text_or_null s.previous_version) (
                    field "last_verified_sequence" (int s.last_verified_sequence) (
                      field "last_verified_version" (text_or_null s.last_verified_version)
                        end))))))))))
