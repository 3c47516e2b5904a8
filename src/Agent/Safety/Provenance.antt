-- ===== src/Agent/Safety/Provenance.antt =====
-- What may be written to the MCU: the artifact of an update that was verified and allowed, and then
-- the images of the state directory.
use unoq_ota.Prelude.{ℕ, ◌≡◌, true, false, List, [], ◌∷◌, String}
use unoq_ota.Outcome.{ok}
use unoq_ota.Python.{Python, IsLawful}
use unoq_ota.Artifact.{SketchArtifact}
use unoq_ota.State.{State, load}
use unoq_ota.Agent.World.{
  World, Env, Event, staged, installed, restored, verified, loaded, flash_gate_asked,
}
use unoq_ota.Agent.Store.{labelled}
use unoq_ota.Agent.Fetch.{run_cycles}
use unoq_ota.Agent.Discipline.{
  Point, between, considered, refused, judged, accepted, permitted, counted, flashed, Discipline,
  Holds, is_flash,
}
use unoq_ota.Agent.Discipline.Fetch.{Holds-run_cycles}

-- The update's manifest and staged file were verified, and its artifact was loaded from that file
-- just after.
pub data WasVerified (v : String) (a : SketchArtifact) : List Event → Type 0 where
  just : {t : List Event} → WasVerified v a (loaded staged (ok a) ∷ verified v (ok tt) ∷ t)
  earlier : {t : List Event} {e : Event} → WasVerified v a t → WasVerified v a (e ∷ t)

-- And the gate was asked after that, and allowed the flash.
pub data WasAllowed (v : String) (a : SketchArtifact) : List Event → Type 0 where
  allowed :
      {t : List Event} {reason : String}
      → WasVerified v a t
      → WasAllowed v a (flash_gate_asked (ok (true, reason)) ∷ t)
  since : {t : List Event} {e : Event} → WasAllowed v a t → WasAllowed v a (e ∷ t)

-- Some update was written before.
pub data HasInstall : List Event → Type 0 where
  install : {t : List Event} {v : String} {a : SketchArtifact} → HasInstall (installed v a ∷ t)
  older : {t : List Event} {e : Event} → HasInstall t → HasInstall (e ∷ t)

-- Every write of the trace was due: an update's, to a verified and allowed artifact; a candidate's, to
-- an update that was written before it.
abbrev pub IsDue : Event → List Event → Type 0
IsDue (installed v a) t = WasAllowed v a t
IsDue (restored n a) t = HasInstall t
IsDue _ t = Unit

abbrev pub AllDue : List Event → Type 0
AllDue [] = Unit
AllDue (e ∷ t) = IsDue e t × AllDue t

abbrev Due : Point → State → List Event → Type 0
Due between s t = AllDue t
Due (considered u) s t = AllDue t
Due (refused u) s t = AllDue t
Due (judged u) s t = AllDue t
Due (accepted u a) s t = AllDue t × WasVerified u.version a t
Due (permitted u a) s t = AllDue t × WasAllowed u.version a t
Due (counted u a) s t = AllDue t × WasAllowed u.version a t
Due (flashed u) s t = AllDue t × HasInstall t

AllDue-quiet : (e : Event) (t : List Event) → is_flash e ≡ false → AllDue t → AllDue (e ∷ t)
AllDue-quiet (installed v a) t q h = absurd (cc q)
AllDue-quiet (restored n a) t q h = absurd (cc q)
AllDue-quiet e t q h = (tt, h)

Due-quiet :
    (p : Point) (s : State) (t : List Event) (e : Event)
    → is_flash e ≡ false
    → Due p s t
    → Due p s (e ∷ t)
Due-quiet between s t e q h = AllDue-quiet e t q h
Due-quiet (considered u) s t e q h = AllDue-quiet e t q h
Due-quiet (refused u) s t e q h = AllDue-quiet e t q h
Due-quiet (judged u) s t e q h = AllDue-quiet e t q h
Due-quiet (accepted u a) s t e q h = (AllDue-quiet e t q h.0, earlier h.1)
Due-quiet (permitted u a) s t e q h = (AllDue-quiet e t q h.0, since h.1)
Due-quiet (counted u a) s t e q h = (AllDue-quiet e t q h.0, since h.1)
Due-quiet (flashed u) s t e q h = (AllDue-quiet e t q h.0, older h.1)

-- The state has no part in it.
Due-state : (p : Point) (s s' : State) (t : List Event) → Due p s t → Due p s' t
Due-state between s s' t h = h
Due-state (considered u) s s' t h = h
Due-state (refused u) s s' t h = h
Due-state (judged u) s s' t h = h
Due-state (accepted u a) s s' t h = h
Due-state (permitted u a) s s' t h = h
Due-state (counted u a) s s' t h = h
Due-state (flashed u) s s' t h = h

Due-settles : (p : Point) (s : State) (t : List Event) → Due p s t → Due between s t
Due-settles between s t h = h
Due-settles (considered u) s t h = h
Due-settles (refused u) s t h = h
Due-settles (judged u) s t h = h
Due-settles (accepted u a) s t h = h.0
Due-settles (permitted u a) s t h = h.0
Due-settles (counted u a) s t h = h.0
Due-settles (flashed u) s t h = h.0

due : {py : Python} (env : Env py) → Discipline env Due
due env = record {
  quiet = Due-quiet;
  labels = λ p s t phase label h. Due-state p s (labelled env phase label s) t h;
  settles = Due-settles;
  caps = λ u s t why h. h;
  poisons = λ u s t h. h;
  refuses_verify = λ u s t e bad h. (tt, h);
  refuses_load = λ u s t e bad h. (tt, (tt, h));
  misses_attempt = λ u s t h. h;
  blames = λ u s t h. h;
  restores = λ u s t n a h. ((h.1, h.0), older h.1);
  enters = λ u s t good few new h. h;
  attempts = λ u s t h. h;
  stamps = λ u a s t h. h.0;
  accepts = λ u a s t h. ((tt, (tt, h)), just);
  permits = λ u a s t reason wet h. ((tt, h.0), allowed h.1);
  counts = λ u a s t h. h;
  misses = λ u a s w e failed h. h;
  installs = λ u a s t h. ((h.1, h.0), install);
  commits = λ u had s t h. h.0;
}

-- In any number of cycles from a readable state, whatever the collaborators answer or raise, an
-- update's artifact is written only after its manifest was verified, that very artifact was then
-- loaded from the staged file, and the gate was then asked and allowed it; and a rollback candidate
-- is written only after some update was.
pub every_flash_due :
    {py : Python} (law : IsLawful py) (env : Env py) (n : ℕ) (w : World py) (s : State)
    → load py w.state_file ≡ ok s
    → w.trace ≡ []
    → AllDue (run_cycles env n w).trace
every_flash_due law env n w s readable new =
    let start : Holds (Due between) w = record { state = s; loads = readable; holds = rw new tt } in
    (Holds-run_cycles law (due env) n w start).holds
