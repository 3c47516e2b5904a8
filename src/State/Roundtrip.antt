-- ===== src/State/Roundtrip.antt =====
-- `StateStore.save` followed by `StateStore.load` (unoq_ota/state.py).
use unoq_ota.Prelude.{ℤ, ◌≡◌, refl, String, Option, none, some, List, [], ◌∷◌, Dict, ap}
use unoq_ota.Outcome.{ok}
use unoq_ota.Python.{Python, IsLawful, str, as_str}
use unoq_ota.State.{
  Phase, State, text, load, phase_value, payload_of, sanitize_phase, counts_of, items_of,
  sanitize_counts, texts_of, state_of, text_or_null,
}

sanitize_phase-phase_value : (p : Phase) → sanitize_phase (str (phase_value p)) ≡ p
unfolding sanitize_phase phase_value
sanitize_phase-phase_value Phase.idle = refl
sanitize_phase-phase_value p = refl

sanitize_counts-counts_of : (py : Python) (d : Dict ℤ) → sanitize_counts py (counts_of d) ≡ d
unfolding sanitize_counts counts_of
sanitize_counts-counts_of py [] = refl
sanitize_counts-counts_of py ((k, n) ∷ d) = ap (λ r. (k, n) ∷ r) (sanitize_counts-counts_of py d)

texts_of-items_of : (l : List String) → texts_of (items_of l) ≡ l
unfolding texts_of items_of
texts_of-items_of [] = refl
texts_of-items_of (s ∷ l) = ap (λ r. s ∷ r) (texts_of-items_of l)

as_str-text_or_null : (o : Option String) → as_str (text_or_null o) ≡ o
as_str-text_or_null none = refl
as_str-text_or_null (some s) = refl

state_of-payload_of : (py : Python) (s : State) → state_of py (some (payload_of s)) ≡ s
unfolding state_of payload_of
state_of-payload_of py s = λ i. record {
  phase = sanitize_phase-phase_value s.phase i;
  version = as_str-text_or_null s.version i;
  attempts = sanitize_counts-counts_of py s.attempts i;
  poisoned = texts_of-items_of s.poisoned i;
  sequence = s.sequence;
  core_version = as_str-text_or_null s.core_version i;
  committed_version = as_str-text_or_null s.committed_version i;
  previous_version = as_str-text_or_null s.previous_version i;
  last_verified_sequence = s.last_verified_sequence;
  last_verified_version = as_str-text_or_null s.last_verified_version i;
}

-- What `save` wrote, `load` gives back, field by field.
pub load-save :
    (py : Python) → IsLawful py → (s : State) → load py (text (py.dumps (payload_of s))) ≡ ok s
unfolding load
load-save py law s = rw (law.loads-dumps (payload_of s)) (ap ok (state_of-payload_of py s))
