-- ===== src/Agent/Safety/Attempts.antt =====
-- The number of flashes of one version, over any number of cycles of unoq_ota/agent.py.
use unoq_ota.Prelude.{
  ℕ, suc, ◌+◌, ◌≤◌, ℤ, pos, negsuc, ◌≤ℤ◌, leb_ℤ, suc_ℤ, ◌≡◌, ◌∙◌, refl, false, List, [], ◌∷◌,
  String, ◌==◌, eq_iff, lookup-insert, arith, if◌then◌else◌, inl, inr, Bool-cases, ap,
}
use unoq_ota.Outcome.{ok}
use unoq_ota.Python.{Python, IsLawful}
use unoq_ota.Artifact.{SketchArtifact}
use unoq_ota.State.{State, Phase, load, max_attempts}
use unoq_ota.Interfaces.{Update}
use unoq_ota.Agent.World.{World, Env, Event, installed, save}
use unoq_ota.Agent.Store.{Label, attempts_in, with_attempt, labelled}
use unoq_ota.Agent.Fetch.{run_cycles}
use unoq_ota.Agent.Discipline.{
  Point, between, considered, refused, judged, accepted, permitted, counted, flashed, Discipline,
  Holds, is_flash,
}
use unoq_ota.Agent.Discipline.Fetch.{Holds-run_cycles}

-- How often the sketch of a version was written.
abbrev pub installs : String → List Event → ℕ
installs v [] = 0
installs v (installed j a ∷ t) = (if j == v then 1 else 0) + installs v t
installs v (_ ∷ t) = installs v t

-- No write of the state file is refused.
abbrev pub SavesWork : {py : Python} → Env py → Type 0
SavesWork {py} env = (w : World py) (s : State) → env.io w (save s) ≡ ok tt

pub attempts_in-with_attempt :
    (s : State) (v j : String)
    → attempts_in (with_attempt s v) j
      ≡ (if v == j then suc_ℤ (attempts_in s v) else attempts_in s j)
attempts_in-with_attempt s v j = elim (Bool-cases (v == j)) [
  | inl e ↦ rw (lookup-insert, e) refl
  | inr e ↦ rw (lookup-insert, e) refl
]

room_below : (n : ℤ) → leb_ℤ (pos 2) n ≡ false → n ≤ℤ pos 1
room_below n h = ground arith

-- The count after an attempt of the same version, and of another.
counted_same :
    (k : ℕ) (a b : ℤ)
    → b ≡ suc_ℤ a
    → pos k ≤ℤ a
    → a ≤ℤ pos 1
    → (pos (suc k) ≤ℤ b) × (b ≤ℤ pos 2) × (pos k ≤ℤ b)
counted_same k (pos n) b e h r = rw e (omega arith)
counted_same k (negsuc n) b e h r = absurd (omega arith)

module _ (v : String) where
  abbrev Recorded : State → List Event → Type 0
  Recorded s t = (pos (installs v t) ≤ℤ attempts_in s v) × (attempts_in s v ≤ℤ pos 2)

  abbrev HasRoom : Update → State → Type 0
  HasRoom u s = u.version ≡ v → attempts_in s v ≤ℤ pos 1

  abbrev HasSlot : Update → State → List Event → Type 0
  HasSlot u s t = u.version ≡ v → pos (suc (installs v t)) ≤ℤ attempts_in s v

  abbrev Capped : Point → State → List Event → Type 0
  Capped between s t = Recorded s t
  Capped (considered u) s t = Recorded s t × HasRoom u s
  Capped (refused u) s t = Recorded s t × HasRoom u s
  Capped (judged u) s t = Recorded s t
  Capped (accepted u a) s t = Recorded s t × HasRoom u s
  Capped (permitted u a) s t = Recorded s t × HasRoom u s
  Capped (counted u a) s t = Recorded s t × HasSlot u s t
  Capped (flashed u) s t = Recorded s t

  pub installs_quiet :
      (e : Event) (t : List Event) → is_flash e ≡ false → installs v (e ∷ t) ≡ installs v t
  installs_quiet (installed j a) t h = absurd (cc h)
  installs_quiet e t h = refl

  Capped-quiet :
      (p : Point) (s : State) (t : List Event) (e : Event)
      → is_flash e ≡ false
      → Capped p s t
      → Capped p s (e ∷ t)
  Capped-quiet between s t e q h = rw (installs_quiet e t q) h
  Capped-quiet (counted u a) s t e q h = rw (installs_quiet e t q) h
  Capped-quiet p s t e q h = rw (installs_quiet e t q) h

  Capped-labelled :
      {py : Python} (env : Env py) (p : Point) (s : State) (t : List Event) (phase : Phase)
      (label : Label)
      → Capped p s t
      → Capped p (labelled env phase label s) t
  Capped-labelled env between s t phase label h = h
  Capped-labelled env (considered u) s t phase label h = h
  Capped-labelled env (refused u) s t phase label h = h
  Capped-labelled env (judged u) s t phase label h = h
  Capped-labelled env (accepted u a) s t phase label h = h
  Capped-labelled env (permitted u a) s t phase label h = h
  Capped-labelled env (counted u a) s t phase label h = h
  Capped-labelled env (flashed u) s t phase label h = h

  Capped-settles : (p : Point) (s : State) (t : List Event) → Capped p s t → Capped between s t
  Capped-settles between s t h = h
  Capped-settles (considered u) s t h = h.0
  Capped-settles (refused u) s t h = h.0
  Capped-settles (judged u) s t h = h
  Capped-settles (accepted u a) s t h = h.0
  Capped-settles (permitted u a) s t h = h.0
  Capped-settles (counted u a) s t h = h.0
  Capped-settles (flashed u) s t h = h

  has_room :
      (u : Update) (s : State) → leb_ℤ (pos 2) (attempts_in s u.version) ≡ false → HasRoom u s
  has_room u s few same = rw (← same) (room_below (attempts_in s u.version) few)

  Capped-with_attempt :
      (u : Update) (s : State) (t : List Event)
      → Recorded s t × HasRoom u s
      → Recorded (with_attempt s u.version) t × HasSlot u (with_attempt s u.version) t
  Capped-with_attempt u s t h = elim (Bool-cases (u.version == v)) [
    | inl e ↦
        let same = (eq_iff u.version v).0 e in
        let now =
          attempts_in-with_attempt s u.version v ∙ rw e (ap (λ j. suc_ℤ (attempts_in s j)) same) in
        let (slot, cap, low) =
          counted_same (installs v t) (attempts_in s v) (attempts_in (with_attempt s u.version) v)
            now h.0.0 (h.1 same) in
        ((low, cap), λ _. slot)
    | inr e ↦
        let now : attempts_in (with_attempt s u.version) v ≡ attempts_in s v =
          attempts_in-with_attempt s u.version v ∙ rw e refl in
        (rw now h.0, λ same. absurd (cc ((eq_iff u.version v).1 same)))
  ]

  Capped-installed :
      (u : Update) (a : SketchArtifact) (s : State) (t : List Event)
      → Recorded s t × HasSlot u s t
      → Recorded s (installed u.version a ∷ t)
  Capped-installed u a s t h = elim (Bool-cases (u.version == v)) [
    | inl e ↦ rw e (omega (arith, h.1 ((eq_iff u.version v).0 e)))
    | inr e ↦ rw e (omega arith)
  ]

  capped : {py : Python} (env : Env py) → SavesWork env → Discipline env Capped
  capped env work = record {
    quiet = Capped-quiet;
    labels = Capped-labelled env;
    settles = Capped-settles;
    caps = λ u s t why h. h;
    poisons = λ u s t h. h;
    refuses_verify = λ u s t e bad h. h;
    refuses_load = λ u s t e bad h. h;
    misses_attempt = λ u s t h. h.0;
    blames = λ u s t h. h;
    restores = λ u s t n a h. h;
    enters = λ u s t good few new h. (h, has_room u s few);
    attempts = λ u s t h. (Capped-with_attempt u s t h).0;
    stamps = λ u a s t h. h.0;
    accepts = λ u a s t h. h;
    permits = λ u a s t reason wet h. h;
    counts = λ u a s t h. Capped-with_attempt u s t h;
    misses = λ u a s w e failed h. cc (work w (with_attempt s u.version));
    installs = λ u a s t h. Capped-installed u a s t h;
    commits = λ u had s t h. h;
  }

-- Where the state file can be written, a version whose recorded attempts lie between 0 and
-- `MAX_ATTEMPTS` is installed as an update, by a write of the artifact that an offer of it brought, at
-- most `MAX_ATTEMPTS` times in any number of cycles, whatever the source offers and whatever the
-- collaborators answer or raise. The writes by which a rollback restores a file that was kept are
-- not counted, whatever sketch the file holds.
pub installs_capped :
    {py : Python} (law : IsLawful py) (env : Env py)
    → SavesWork env
    → (v : String) (n : ℕ) (w : World py) (s : State) → load py w.state_file ≡ ok s
    → pos 0 ≤ℤ attempts_in s v
    → attempts_in s v ≤ℤ pos max_attempts
    → w.trace ≡ []
    → installs v (run_cycles env n w).trace ≤ max_attempts
installs_capped law env work v n w s loaded low high new =
    let start : Holds (Capped v between) w = record {
      state = s;
      loads = loaded;
      holds = rw new (low, high);
    } in
    omega (arith, (Holds-run_cycles law (capped v env work) n w start).holds)
