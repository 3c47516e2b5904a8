-- ===== src/Agent/Safety/Poison.antt =====
-- Poisoned versions over any number of cycles of unoq_ota/agent.py.
use unoq_ota.Prelude.{
  ℕ, ◌≡◌, ◌≢◌, refl, ap, ◌∙◌, true, false, List, ◌∷◌, String, eq_iff, contains, contains-append,
  arith, inl, inr, Bool-cases,
}
use unoq_ota.Outcome.{ok}
use unoq_ota.Python.{Python, IsLawful}
use unoq_ota.Artifact.{SketchArtifact}
use unoq_ota.State.{State, load}
use unoq_ota.Interfaces.{Update}
use unoq_ota.Agent.World.{World, Env, Event, installed}
use unoq_ota.Agent.Store.{with_poisoned}
use unoq_ota.Agent.Fetch.{run_cycles}
use unoq_ota.Agent.Discipline.{
  Point, between, considered, refused, judged, accepted, permitted, counted, flashed, Discipline,
  Holds,
}
use unoq_ota.Agent.Discipline.Fetch.{Holds-run_cycles}
use unoq_ota.Agent.Safety.Attempts.{installs, installs_quiet}

contains-with_poisoned :
    (s : State) (v j : String)
    → contains s.poisoned v ≡ true
    → contains (with_poisoned s j).poisoned v ≡ true
contains-with_poisoned s v j h = elim (Bool-cases (contains s.poisoned j)) [
  | inl e ↦ rw e h
  | inr e ↦ rw e (rw (contains-append, h) refl)
]

module _ (v : String) (k : ℕ) where
  abbrev Blocked : State → List Event → Type 0
  Blocked s t = (contains s.poisoned v ≡ true) × (installs v t ≡ k)

  abbrev Shunned : Point → State → List Event → Type 0
  Shunned between s t = Blocked s t
  Shunned (considered u) s t = Blocked s t × (u.version ≢ v)
  Shunned (refused u) s t = Blocked s t
  Shunned (judged u) s t = Blocked s t
  Shunned (accepted u a) s t = Blocked s t × (u.version ≢ v)
  Shunned (permitted u a) s t = Blocked s t × (u.version ≢ v)
  Shunned (counted u a) s t = Blocked s t × (u.version ≢ v)
  Shunned (flashed u) s t = Blocked s t

  Shunned-settles : (p : Point) (s : State) (t : List Event) → Shunned p s t → Shunned between s t
  Shunned-settles between s t h = h
  Shunned-settles (considered u) s t h = h.0
  Shunned-settles (refused u) s t h = h
  Shunned-settles (judged u) s t h = h
  Shunned-settles (accepted u a) s t h = h.0
  Shunned-settles (permitted u a) s t h = h.0
  Shunned-settles (counted u a) s t h = h.0
  Shunned-settles (flashed u) s t h = h

  -- Only the poison list and the count have a part in it.
  Shunned-same :
      (p : Point) (s s' : State) (t t' : List Event)
      → s'.poisoned ≡ s.poisoned
      → installs v t' ≡ installs v t
      → Shunned p s t
      → Shunned p s' t'
  Shunned-same between s s' t t' e f h = rw (e, f) h
  Shunned-same (considered u) s s' t t' e f h = rw (e, f) h
  Shunned-same (refused u) s s' t t' e f h = rw (e, f) h
  Shunned-same (judged u) s s' t t' e f h = rw (e, f) h
  Shunned-same (accepted u a) s s' t t' e f h = rw (e, f) h
  Shunned-same (permitted u a) s s' t t' e f h = rw (e, f) h
  Shunned-same (counted u a) s s' t t' e f h = rw (e, f) h
  Shunned-same (flashed u) s s' t t' e f h = rw (e, f) h

  other_version :
      (u : Update) (s : State)
      → contains s.poisoned u.version ≡ false
      → contains s.poisoned v ≡ true
      → u.version ≢ v
  other_version u s good bad e = cc (ap (contains s.poisoned) e)

  installs-other :
      (u : Update) (a : SketchArtifact) (t : List Event)
      → u.version ≢ v
      → installs v (installed u.version a ∷ t) ≡ installs v t
  installs-other u a t h = ground (arith, eq_iff u.version v)

  shunned : {py : Python} (env : Env py) → Discipline env Shunned
  shunned env = record {
    quiet = λ p s t e q h. Shunned-same p s s t (e ∷ t) refl (installs_quiet v e t q) h;
    labels = λ p s t phase label h. Shunned-same p s _ t t refl refl h;
    settles = Shunned-settles;
    caps = λ u s t why h. (contains-with_poisoned s v u.version h.0, h.1);
    poisons = λ u s t h. (contains-with_poisoned s v u.version h.0, h.1);
    refuses_verify = λ u s t e bad h. h.0;
    refuses_load = λ u s t e bad h. h.0;
    misses_attempt = λ u s t h. h;
    blames = λ u s t h. (contains-with_poisoned s v u.version h.0, h.1);
    restores = λ u s t n a h. h;
    enters = λ u s t good few new h. (h, other_version u s good h.0);
    attempts = λ u s t h. h;
    stamps = λ u a s t h. h.0;
    accepts = λ u a s t h. h;
    permits = λ u a s t reason wet h. h;
    counts = λ u a s t h. h;
    misses = λ u a s w e failed h. h;
    installs = λ u a s t h. (h.0.0, installs-other u a t h.1 ∙ h.0.1);
    commits = λ u had s t h. h;
  }

-- Once a version is on the poison list of a readable state, then in any number of cycles, whatever
-- is offered and whatever the collaborators answer or raise, the state stays readable with the
-- version on the list, and the version is not installed as an update again. A write by which
-- a rollback restores a file that was kept is no such install, whatever sketch the file holds.
pub poisoned_forever :
    {py : Python} (law : IsLawful py) (env : Env py) (v : String) (n : ℕ) (w : World py) (s : State)
    → load py w.state_file ≡ ok s
    → contains s.poisoned v ≡ true
    → (s' : State) × (load py (run_cycles env n w).state_file ≡ ok s')
      × (contains s'.poisoned v ≡ true)
      × (installs v (run_cycles env n w).trace ≡ installs v w.trace)
poisoned_forever law env v n w s readable bad =
    let k = installs v w.trace in
    let start : Holds (Shunned v k between) w = record {
      state = s;
      loads = readable;
      holds = (bad, refl);
    } in
    let h = Holds-run_cycles law (shunned v k env) n w start in
    (h.state, h.loads, h.holds.0, h.holds.1)
