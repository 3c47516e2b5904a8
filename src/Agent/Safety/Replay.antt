-- ===== src/Agent/Safety/Replay.antt =====
-- The sequence numbers of the state, over any number of cycles of unoq_ota/agent.py.
use unoq_ota.Prelude.{ℕ, ℤ, ◌≤ℤ◌, leb_ℤ, max_ℤ, ◌≡◌, refl, false, List, ◌∷◌, arith}
use unoq_ota.Outcome.{ok}
use unoq_ota.Python.{Python, IsLawful}
use unoq_ota.State.{State, load}
use unoq_ota.Interfaces.{Update}
use unoq_ota.Agent.World.{World, Env, Event}
use unoq_ota.Agent.Fetch.{watermark, run_cycles}
use unoq_ota.Agent.Discipline.{
  Point, between, considered, refused, judged, accepted, permitted, counted, flashed, Discipline,
  Holds,
}
use unoq_ota.Agent.Discipline.Fetch.{Holds-run_cycles}

newer_than_both : (a b n : ℤ) → leb_ℤ n (max_ℤ a b) ≡ false → (a ≤ℤ n) × (b ≤ℤ n)
newer_than_both a b n h = ground arith

le_trans_ℤ : (a b c : ℤ) → a ≤ℤ b → b ≤ℤ c → a ≤ℤ c
le_trans_ℤ a b c h k = omega arith

module _ (low verified_low : ℤ) where
  abbrev Above : State → Type 0
  Above s = (low ≤ℤ s.sequence) × (verified_low ≤ℤ s.last_verified_sequence)

  abbrev Newer : Update → State → Type 0
  Newer u s =
      (low ≤ℤ s.sequence)
      × (verified_low ≤ℤ s.last_verified_sequence)
      × (low ≤ℤ u.sequence)
      × (verified_low ≤ℤ u.sequence)

  abbrev Monotone : Point → State → List Event → Type 0
  Monotone between s t = Above s
  Monotone (considered u) s t = Newer u s
  Monotone (refused u) s t = Newer u s
  Monotone (judged u) s t = Above s
  Monotone (accepted u a) s t = Newer u s
  Monotone (permitted u a) s t = Newer u s
  Monotone (counted u a) s t = Newer u s
  Monotone (flashed u) s t = Newer u s

  Monotone-settles :
      (p : Point) (s : State) (t : List Event) → Monotone p s t → Monotone between s t
  Monotone-settles between s t h = h
  Monotone-settles (considered u) s t h = (h.0, h.1)
  Monotone-settles (refused u) s t h = (h.0, h.1)
  Monotone-settles (judged u) s t h = h
  Monotone-settles (accepted u a) s t h = (h.0, h.1)
  Monotone-settles (permitted u a) s t h = (h.0, h.1)
  Monotone-settles (counted u a) s t h = (h.0, h.1)
  Monotone-settles (flashed u) s t h = (h.0, h.1)

  -- Only the two sequence numbers have a part in it.
  Monotone-same :
      (p : Point) (s s' : State) (t t' : List Event)
      → s'.sequence ≡ s.sequence
      → s'.last_verified_sequence ≡ s.last_verified_sequence
      → Monotone p s t
      → Monotone p s' t'
  Monotone-same between s s' t t' e f h = rw (e, f) h
  Monotone-same (considered u) s s' t t' e f h = rw (e, f) h
  Monotone-same (refused u) s s' t t' e f h = rw (e, f) h
  Monotone-same (judged u) s s' t t' e f h = rw (e, f) h
  Monotone-same (accepted u a) s s' t t' e f h = rw (e, f) h
  Monotone-same (permitted u a) s s' t t' e f h = rw (e, f) h
  Monotone-same (counted u a) s s' t t' e f h = rw (e, f) h
  Monotone-same (flashed u) s s' t t' e f h = rw (e, f) h

  Newer-enters :
      (u : Update) (s : State) → leb_ℤ u.sequence (watermark s) ≡ false → Above s → Newer u s
  Newer-enters u s new h =
      let (a, b) = newer_than_both s.sequence s.last_verified_sequence u.sequence new in
      (
        h.0,
        h.1,
        le_trans_ℤ low s.sequence u.sequence h.0 a,
        le_trans_ℤ verified_low s.last_verified_sequence u.sequence h.1 b,
      )

  monotone : {py : Python} (env : Env py) → Discipline env Monotone
  monotone env = record {
    quiet = λ p s t e q h. Monotone-same p s s t (e ∷ t) refl refl h;
    labels = λ p s t phase label h. Monotone-same p s _ t t refl refl h;
    settles = Monotone-settles;
    caps = λ u s t why h. h;
    poisons = λ u s t h. h;
    refuses_verify = λ u s t e bad h. h;
    refuses_load = λ u s t e bad h. h;
    misses_attempt = λ u s t h. (h.0, h.1);
    blames = λ u s t h. h;
    restores = λ u s t n a h. h;
    enters = λ u s t good few new h. Newer-enters u s new h;
    attempts = λ u s t h. (h.0, h.1);
    stamps = λ u a s t h. (h.0, h.3);
    accepts = λ u a s t h. h;
    permits = λ u a s t reason wet h. h;
    counts = λ u a s t h. h;
    misses = λ u a s w e failed h. h;
    installs = λ u a s t h. h;
    commits = λ u had s t h. (h.2, h.1);
  }

-- From a readable state, in any number of cycles and whatever the collaborators answer or raise, the
-- state stays readable, and neither its `sequence` nor its `last_verified_sequence` goes down.
pub sequences_never_fall :
    {py : Python} (law : IsLawful py) (env : Env py) (n : ℕ) (w : World py) (s : State)
    → load py w.state_file ≡ ok s
    → (s' : State) × (load py (run_cycles env n w).state_file ≡ ok s')
      × (s.sequence ≤ℤ s'.sequence)
      × (s.last_verified_sequence ≤ℤ s'.last_verified_sequence)
sequences_never_fall law env n w s readable =
    let low = s.sequence in
    let verified_low = s.last_verified_sequence in
    let start : Holds (Monotone low verified_low between) w = record {
      state = s;
      loads = readable;
      holds = (omega arith, omega arith);
    } in
    let h = Holds-run_cycles law (monotone low verified_low env) n w start in
    (h.state, h.loads, h.holds.0, h.holds.1)
