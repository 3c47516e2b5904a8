-- ===== src/Agent/World.antt =====
-- What the agent acts on: the files of its state directory, the state file, and the calls made so
-- far. The collaborators that are injected, and the operating system, are an environment whose
-- answers may depend on all of that.
use unoq_ota.Prelude.{ℕ, ℤ, String, Bool, Option, none, List, ◌∷◌}
use unoq_ota.Outcome.{Outcome}
use unoq_ota.Python.{Python, Value}
use unoq_ota.Artifact.{Bytes, SketchHeader, SketchArtifact}
use unoq_ota.Board.{FlashTarget}
use unoq_ota.Interfaces.{Status, Update}
use unoq_ota.State.{State, StateFile, text, payload_of}

-- `ROLLBACK_CANDIDATES`, then `STAGED_NAMES`.
pub data FileName : Type 0 where
  current previous golden staged staged_host : FileName

pub record Files : Type 0 where
  pub current_bin : Option Bytes
  pub previous_bin : Option Bytes
  pub golden_bin : Option Bytes
  pub staged_bin : Option Bytes
  pub staged_host_tar : Option Bytes

abbrev pub read : FileName → Files → Option Bytes
read current f = f.current_bin
read previous f = f.previous_bin
read golden f = f.golden_bin
read staged f = f.staged_bin
read staged_host f = f.staged_host_tar

abbrev pub write : FileName → Option Bytes → Files → Files
write current b f = record f { current_bin = b }
write previous b f = record f { previous_bin = b }
write golden b f = record f { golden_bin = b }
write staged b f = record f { staged_bin = b }
write staged_host b f = record f { staged_host_tar = b }

-- An operation on the state directory that the file system may refuse, and then leaves undone:
-- `StateStore.save` and `_atomic_copy` write a temporary file and rename it, or remove it.
pub data Operation : Type 0 where
  save : State → Operation
  unlink : FileName → Operation
  copy : FileName → FileName → Operation
  make_dir : Operation

-- A call that has been made, with the answer where something depends on it.
pub data Event : Type 0 where
  dns_ensured checked clock_read disk_read fetch_gate_asked resident_read : Event
  flash_gate_asked : Outcome (Bool × String) → Event
  router_stopped router_started : Event
  host_applied host_rolled_back host_restarted host_probed : Event
  done : Operation → Bool → Event
  reported : String → Status → String → Event
  fetched : Value → FileName → Event
  verified : String → Outcome (Unit {0}) → Event
  loaded : FileName → Outcome SketchArtifact → Event
  installed : String → SketchArtifact → Event  -- `self._flash` with the update's artifact
  restored : FileName → SketchArtifact → Event  -- `self._flash` with a rollback candidate
  health_probed : String → Outcome Bool → Event
  alive_probed : String → Outcome (Option String) → Event

pub record World (py : Python) : Type 0 where
  pub state_file : StateFile py.Text
  pub files : Files
  pub trace : List Event  -- the newest call first

pub record Env (py : Python) : Type 0 where
  pub target : FlashTarget
  pub host_max_bytes : ℕ
  pub no_flash : Bool
  pub ensure_dns : World py → Outcome (Unit {0})
  pub check : World py → Outcome (Option Update)
  pub report : World py → String → Status → String → Outcome (Unit {0})
  pub io : World py → Operation → Outcome (Unit {0})
  pub read_bytes : World py → Bytes → Outcome Bytes
  pub utc_year : World py → ℕ
  pub free_space : World py → Outcome ℕ
  pub may_fetch : Option (World py → Outcome (Bool × String))
  pub may_flash : World py → Outcome (Bool × String)
  -- the outcome, and what the destination holds afterwards
  pub fetch : World py → Value → FileName → Outcome (Unit {0}) × Option Bytes
  pub verify : World py → Update → ℤ → Outcome (Unit {0})
  pub load : World py → FileName → Outcome SketchArtifact
  pub flash : World py → SketchArtifact → Outcome (Unit {0})
  pub resident_header : World py → Outcome SketchHeader
  pub wait_healthy : World py → String → Outcome Bool
  pub wait_alive : Option (World py → String → Outcome (Option String))
  pub apply_host : World py → Outcome (Unit {0})
  pub rollback_host : World py → Outcome (Unit {0})
  pub host_restart : Option (World py → Outcome (Unit {0}))
  pub host_health : Option (World py → Outcome Bool)

module _ {py : Python} where
  abbrev pub log : Event → World py → World py
  log e w = record w { trace = e ∷ w.trace }

  -- What an operation does where the file system lets it.
  abbrev pub effect : Operation → World py → World py
  effect (save s) w = record w { state_file = text (py.dumps (payload_of s)) }
  effect (unlink n) w = record w { files = write n none w.files }
  effect (copy m n) w = record w { files = write n (read m w.files) w.files }
  effect make_dir w = w
