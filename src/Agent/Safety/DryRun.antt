-- ===== src/Agent/Safety/DryRun.antt =====
-- Cycles of unoq_ota/agent.py with `no_flash`.
use unoq_ota.Prelude.{ℕ, suc, ℤ, ◌≡◌, refl, true, false, Option, List, [], ◌∷◌, String}
use unoq_ota.Outcome.{ok}
use unoq_ota.Python.{Python, IsLawful}
use unoq_ota.State.{State, load}
use unoq_ota.Agent.World.{World, Env, Event, installed, restored}
use unoq_ota.Agent.Fetch.{run_cycles}
use unoq_ota.Agent.Discipline.{
  Point, between, considered, refused, judged, accepted, permitted, counted, flashed, Discipline,
  Holds, is_flash,
}
use unoq_ota.Agent.Discipline.Fetch.{Holds-run_cycles}

-- How often the MCU was written, by an update or by a candidate.
abbrev pub flashes : List Event → ℕ
flashes [] = 0
flashes (installed v a ∷ t) = suc (flashes t)
flashes (restored n a ∷ t) = suc (flashes t)
flashes (_ ∷ t) = flashes t

flashes_quiet : (e : Event) (t : List Event) → is_flash e ≡ false → flashes (e ∷ t) ≡ flashes t
flashes_quiet (installed v a) t h = absurd (cc h)
flashes_quiet (restored n a) t h = absurd (cc h)
flashes_quiet e t h = refl

module _ (k : ℕ) (sequence : ℤ) (committed : Option String) where
  abbrev Untouched : State → List Event → Type 0
  Untouched s t = (flashes t ≡ k) × (s.sequence ≡ sequence) × (s.committed_version ≡ committed)

  -- The gate is not asked at all.
  abbrev Dry : Point → State → List Event → Type 0
  Dry between s t = Untouched s t
  Dry (considered u) s t = Untouched s t
  Dry (refused u) s t = Untouched s t
  Dry (judged u) s t = Untouched s t
  Dry (accepted u a) s t = Untouched s t
  Dry (permitted u a) s t = ⊥
  Dry (counted u a) s t = ⊥
  Dry (flashed u) s t = ⊥

  Dry-settles : (p : Point) (s : State) (t : List Event) → Dry p s t → Dry between s t
  Dry-settles between s t h = h
  Dry-settles (considered u) s t h = h
  Dry-settles (refused u) s t h = h
  Dry-settles (judged u) s t h = h
  Dry-settles (accepted u a) s t h = h
  Dry-settles (permitted u a) s t h = absurd h
  Dry-settles (counted u a) s t h = absurd h
  Dry-settles (flashed u) s t h = absurd h

  Dry-same :
      (p : Point) (s s' : State) (t t' : List Event)
      → s'.sequence ≡ s.sequence
      → s'.committed_version ≡ s.committed_version
      → flashes t' ≡ flashes t
      → Dry p s t
      → Dry p s' t'
  Dry-same between s s' t t' e f g h = rw (e, f, g) h
  Dry-same (considered u) s s' t t' e f g h = rw (e, f, g) h
  Dry-same (refused u) s s' t t' e f g h = rw (e, f, g) h
  Dry-same (judged u) s s' t t' e f g h = rw (e, f, g) h
  Dry-same (accepted u a) s s' t t' e f g h = rw (e, f, g) h
  Dry-same (permitted u a) s s' t t' e f g h = h
  Dry-same (counted u a) s s' t t' e f g h = h
  Dry-same (flashed u) s s' t t' e f g h = h

  dry : {py : Python} (env : Env py) → env.no_flash ≡ true → Discipline env Dry
  dry env off = record {
    quiet = λ p s t e q h. Dry-same p s s t (e ∷ t) refl refl (flashes_quiet e t q) h;
    labels = λ p s t phase label h. Dry-same p s _ t t refl refl refl h;
    settles = Dry-settles;
    caps = λ u s t why h. h;
    poisons = λ u s t h. h;
    refuses_verify = λ u s t e bad h. h;
    refuses_load = λ u s t e bad h. h;
    misses_attempt = λ u s t h. h;
    blames = λ u s t h. h;
    restores = λ u s t n a h. absurd h;
    enters = λ u s t good few new h. h;
    attempts = λ u s t h. h;
    stamps = λ u a s t h. h;
    accepts = λ u a s t h. h;
    permits = λ u a s t reason wet h. cc (off, wet);
    counts = λ u a s t h. h;
    misses = λ u a s w e failed h. h;
    installs = λ u a s t h. absurd h;
    commits = λ u had s t h. absurd h;
  }

-- With `no_flash`, in any number of cycles from a readable state and whatever the collaborators
-- answer or raise, the MCU is not written, by an update or by a candidate, and the state stays
-- readable with its `sequence` and its `committed_version` as they were.
pub no_flash_never_flashes :
    {py : Python} (law : IsLawful py) (env : Env py) (n : ℕ) (w : World py) (s : State)
    → env.no_flash ≡ true
    → load py w.state_file ≡ ok s
    → (s' : State) × (load py (run_cycles env n w).state_file ≡ ok s')
      × (flashes (run_cycles env n w).trace ≡ flashes w.trace)
      × (s'.sequence ≡ s.sequence)
      × (s'.committed_version ≡ s.committed_version)
no_flash_never_flashes law env n w s off readable =
    let k = flashes w.trace in
    let start : Holds (Dry k s.sequence s.committed_version between) w = record {
      state = s;
      loads = readable;
      holds = (refl, refl, refl);
    } in
    let h = Holds-run_cycles law (dry k s.sequence s.committed_version env off) n w start in
    (h.state, h.loads, h.holds.0, h.holds.1, h.holds.2)
