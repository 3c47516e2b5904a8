-- ===== src/Tests/Device.antt =====
-- A device whose collaborators all answer well, an update offered to it, and a Python whose texts
-- are the values that they stand for.
use unoq_ota.Prelude.{ℕ, pos, Bool, true, false, none, some, [], ◌∷◌, refl}
use unoq_ota.Outcome.{ok}
use unoq_ota.Python.{Python, IsLawful, Value, str, obj, end, field}
use unoq_ota.Artifact.{Bytes, SketchArtifact}
use unoq_ota.Artifact.Validity.{artifact_of}
use unoq_ota.Board.{FlashTarget}
use unoq_ota.Interfaces.{Update}
use unoq_ota.State.{State, fresh, payload_of, text, Phase}
use unoq_ota.Agent.World.{World, Env}

abbrev pub python : Python
python = record {
  Text = Value;
  loads = λ v. some v;
  dumps = λ v. v;
  int_of_str = λ s. none;
  int_of_float = λ s. none;
  int_of_literal = λ s. none;
}

pub python-IsLawful : IsLawful python
python-IsLawful = record { loads-dumps = λ v. refl }

abbrev zeros : ℕ → Bytes → Bytes
zeros ℕ.zero b = b
zeros (ℕ.suc n) b = 0 ∷ zeros n b

-- The least flashable image: a header and a section table of no entries at its end.
abbrev pub image : Bytes
image = zeros 7 (1 ∷ 52 ∷ 0 ∷ 0 ∷ 0 ∷ 65 ∷ 35 ∷ 0 ∷ zeros 17 (52 ∷ zeros 13 (40 ∷ zeros 5 [])))

abbrev pub sketch : SketchArtifact
sketch = artifact_of "staged.bin" image

abbrev pub update : Update
update = record {
  version = "2.0";
  sequence = pos 2;
  manifest = field "artifact" (obj (field "url" (str "https://x/2.0") end)) end;
}

abbrev pub board : FlashTarget
board = record { address = 0x80F0000; max_size = 786432; core_version = "1.0" }

-- The update is offered in every cycle, with `no_flash` as given.
abbrev pub device : Bool → Env python
device no_flash = record {
  target = board;
  host_max_bytes = 1000;
  no_flash = no_flash;
  ensure_dns = λ w. ok tt;
  check = λ w. ok (some update);
  report = λ w v s d. ok tt;
  io = λ w op. ok tt;
  read_bytes = λ w b. ok b;
  utc_year = λ w. 2026;
  free_space = λ w. ok 100000000;
  may_fetch = none;
  may_flash = λ w. ok (true, "open");
  fetch = λ w url name. (ok tt, some image);
  verify = λ w u n. ok tt;
  load = λ w name. ok sketch;
  flash = λ w a. ok tt;
  resident_header = λ w. ok sketch.header;
  wait_healthy = λ w v. ok true;
  wait_alive = none;
  apply_host = λ w. ok tt;
  rollback_host = λ w. ok tt;
  host_restart = none;
  host_health = none;
}

-- The same, where the health check never passes.
abbrev pub unhealthy : Env python
unhealthy = record (device false) { wait_healthy = λ w v. ok false }

abbrev pub committed_state : State
committed_state = record fresh {
  phase = Phase.committed;
  sequence = pos 1;
  committed_version = some "1.0";
}

abbrev pub poisoned_state : State
poisoned_state = record committed_state { poisoned = "2.0" ∷ [] }

-- A device that holds an image already, with this state on disk.
abbrev pub running : State → World python
running s = record {
  state_file = text (payload_of s);
  files = record {
    current_bin = some image;
    previous_bin = none;
    golden_bin = some image;
    staged_bin = none;
    staged_host_tar = none;
  };
  trace = [];
}
