-- ===== src/Agent/Discipline.antt =====
-- How an invariant of the device is carried through `run_once`: what it has to allow at each point of
-- a cycle. The points follow the guards that the update has passed.
pub mod Steps
pub mod Rollback
pub mod Install
pub mod Verification
pub mod Fetch
use unoq_ota.Prelude.{
  ℤ, pos, leb_ℤ, ◌≡◌, refl, Bool, true, false, Option, none, some, List, ◌∷◌, contains, String, ◌⊎◌,
}
use unoq_ota.Outcome.{Outcome, ok, raised, Raised, is_poisonable}
use unoq_ota.Python.{Python}
use unoq_ota.Artifact.{SketchArtifact}
use unoq_ota.State.{State, Phase, load, max_attempts}
use unoq_ota.Interfaces.{Update}
use unoq_ota.Agent.World.{
  World, Env, Event, FileName, staged, save, installed, restored, loaded, verified,
  flash_gate_asked,
}
use unoq_ota.Agent.Store.{Label, attempts_in, with_attempt, with_poisoned, labelled}
use unoq_ota.Agent.Fetch.{watermark, with_verified}
use unoq_ota.Agent.Install.{with_commit}

pub data Point : Type 0 where
  between : Point  -- no update is under way
  considered : Update → Point  -- not poisoned, not capped, and newer than the watermark
  refused : Update → Point  -- verification failed for good
  judged : Update → Point  -- the attempt that failed is on record, or could not be saved
  accepted : Update → SketchArtifact → Point  -- verified, and its artifact loaded
  permitted : Update → SketchArtifact → Point  -- the gate allows the flash
  counted : Update → SketchArtifact → Point  -- the attempt is on record, or could not be saved
  flashed : Update → Point

-- The calls that write the MCU.
abbrev pub is_flash : Event → Bool
is_flash (installed v a) = true
is_flash (restored n a) = true
is_flash _ = false

pub record Discipline {py : Python} (env : Env py) (P : Point → State → List Event → Type 0)
    : Type 0 where
  pub quiet :
      (p : Point) (s : State) (t : List Event) (e : Event)
      → is_flash e ≡ false
      → P p s t
      → P p s (e ∷ t)
  pub labels :
      (p : Point) (s : State) (t : List Event) (phase : Phase) (label : Label)
      → P p s t
      → P p (labelled env phase label s) t
  pub settles : (p : Point) (s : State) (t : List Event) → P p s t → P between s t
  pub caps :
      (u : Update) (s : State) (t : List Event)
      → (contains s.poisoned u.version ≡ true)
        ⊎ (leb_ℤ (pos max_attempts) (attempts_in s u.version) ≡ true)
      → P between s t
      → P between (with_poisoned s u.version) t
  pub blames :
      (u : Update) (s : State) (t : List Event)
      → P (flashed u) s t
      → P (flashed u) (with_poisoned s u.version) t
  pub restores :
      (u : Update) (s : State) (t : List Event) (n : FileName) (a : SketchArtifact)
      → P (flashed u) s t
      → P (flashed u) s (restored n a ∷ t)
  pub enters :
      (u : Update) (s : State) (t : List Event)
      → contains s.poisoned u.version ≡ false
      → leb_ℤ (pos max_attempts) (attempts_in s u.version) ≡ false
      → leb_ℤ u.sequence (watermark s) ≡ false
      → P between s t
      → P (considered u) s t
  pub refuses_verify :
      (u : Update) (s : State) (t : List Event) (e : Raised)
      → is_poisonable e ≡ true
      → P (considered u) s t
      → P (refused u) s (verified u.version (raised e) ∷ t)
  pub refuses_load :
      (u : Update) (s : State) (t : List Event) (e : Raised)
      → is_poisonable e ≡ true
      → P (considered u) s t
      → P (refused u) s (loaded staged (raised e) ∷ verified u.version (ok tt) ∷ t)
  pub attempts :
      (u : Update) (s : State) (t : List Event)
      → P (refused u) s t
      → P (judged u) (with_attempt s u.version) t
  pub misses_attempt :
      (u : Update) (s : State) (t : List Event) → P (refused u) s t → P (judged u) s t
  pub poisons :
      (u : Update) (s : State) (t : List Event)
      → P (judged u) s t
      → P (judged u) (with_poisoned s u.version) t
  pub stamps :
      (u : Update) (a : SketchArtifact) (s : State) (t : List Event)
      → P (accepted u a) s t
      → P between (with_verified u s) t
  pub accepts :
      (u : Update) (a : SketchArtifact) (s : State) (t : List Event)
      → P (considered u) s t
      → P (accepted u a) s (loaded staged (ok a) ∷ verified u.version (ok tt) ∷ t)
  pub permits :
      (u : Update) (a : SketchArtifact) (s : State) (t : List Event) (reason : String)
      → env.no_flash ≡ false
      → P (accepted u a) s t
      → P (permitted u a) s (flash_gate_asked (ok (true, reason)) ∷ t)
  pub counts :
      (u : Update) (a : SketchArtifact) (s : State) (t : List Event)
      → P (permitted u a) s t
      → P (counted u a) (with_attempt s u.version) t
  pub misses :
      (u : Update) (a : SketchArtifact) (s : State) (w : World py) (e : Raised)
      → env.io w (save (with_attempt s u.version)) ≡ raised e
      → P (permitted u a) s w.trace
      → P (counted u a) s w.trace
  pub installs :
      (u : Update) (a : SketchArtifact) (s : State) (t : List Event)
      → P (counted u a) s t
      → P (flashed u) s (installed u.version a ∷ t)
  pub commits :
      (u : Update) (had : Bool) (s : State) (t : List Event)
      → P (flashed u) s t
      → P between (with_commit u had s) t

-- The state file can be loaded, and the invariant holds of the state and of the calls so far.
pub record Holds {py : Python} (P : State → List Event → Type 0) (w : World py) : Type 0 where
  pub state : State
  pub loads : load py w.state_file ≡ ok state
  pub holds : P state w.trace

-- The same, at a state that is known.
pub record Knows {py : Python} (P : State → List Event → Type 0) (s : State) (w : World py)
    : Type 0 where
  pub loads : load py w.state_file ≡ ok s
  pub holds : P s w.trace
