-- ===== src/Flasher.antt =====
-- unoq_ota/flasher.py: OpenOCD's verdict on a flash or a read, and the window in which the router is
-- stopped. What `subprocess.run` gives is a parameter, and so are Python's splitting of text and its
-- printing of numbers.
pub mod Sketch
pub mod Dependents
pub mod Window
pub mod Dump
use text.Mathlib.Text.{find?, starts_with}
use unoq_ota.Prelude.{
  ℕ, ℤ, pos, String, ◌<>◌, Bool, true, false, not, ◌&&◌, ◌||◌, Option, none, some, List, [], ◌∷◌,
  ◌++◌, ◌==◌, ltb, eqb, if◌then◌else◌, contains, length,
}
use unoq_ota.Outcome.{Outcome, ok, raised, Raised, flash_error, refuse_if, ◌>>=◌, ◌>>◌}
use unoq_ota.Artifact.{Bytes, SketchArtifact, SketchHeader, parse_header}
use unoq_ota.Board.{FlashTarget}

-- What `subprocess.run` gives: the code and the two streams, or one of the exceptions it is documented to
-- raise.
pub data Ran : Type 0 where
  finished : ℤ → String → String → Ran
  timed_out : Ran
  not_found : Ran
  not_started : String → Ran

abbrev pub markers : List String
markers =
    "INIT-FAILED" ∷ "PROBE-FAILED" ∷ "WRITE-FAILED" ∷ "VERIFY-FAILED" ∷ "READ-FAILED"
    ∷ "RESET-FAILED" ∷ []

-- `t in s`
abbrev pub contains_text : String → String → Bool
contains_text s t = elim (find? s t) [ none ↦ false | some i ↦ true ]

unfoldable pub check_markers : List String → String → Outcome String
check_markers [] output = ok output
check_markers (m ∷ ms) output =
    let rest = check_markers ms output in
    if contains_text output m then raised (flash_error m) else rest

abbrev pub is_zero : ℤ → Bool
is_zero (pos n) = eqb n 0
is_zero n = false

-- `run_openocd`, from what running the command gave
unfoldable pub run_openocd : Ran → Outcome String
unfolding check_markers
run_openocd timed_out = raised (flash_error "openocd timed out")
run_openocd not_found = raised (flash_error "openocd not found")
run_openocd (not_started m) = raised (flash_error ("openocd could not be started: " <> m))
run_openocd (finished code out err) =
    if is_zero code then check_markers markers (out <> err) else raised (flash_error "openocd exit")

-- `{[catch {command} err]}`, which prints the marker and ends the script
abbrev guarded : String → String → String
guarded command marker =
    "if {[catch {" <> command <> "} err]} { echo \"" <> marker <> ": $err\"; shutdown error }\n"

abbrev pub preamble : String
preamble =
    "reset_config srst_only srst_push_pull\n"
    <> guarded "init" "INIT-FAILED"
    <> guarded "reset" "INIT-FAILED"
    <> guarded "halt" "INIT-FAILED"

abbrev pub trailing_reset : String
trailing_reset = guarded "reset" "RESET-FAILED" <> "shutdown\n"

-- `addr` is the address as `0x` and eight hexadecimal digits.
unfoldable pub build_write_script : String → String → String
build_write_script image addr =
    preamble
    <> guarded "flash info 0" "PROBE-FAILED"
    <> guarded ("flash write_image erase " <> image <> " " <> addr <> " bin") "WRITE-FAILED"
    <> guarded ("flash verify_image " <> image <> " " <> addr <> " bin") "VERIFY-FAILED"
    <> "echo \"WRITE-AND-VERIFY-OK\"\n"
    <> trailing_reset

module _ (openocd : String → Ran) (hex : ℕ → String) where
  unfoldable pub write_sketch : SketchArtifact → FlashTarget → Outcome (Unit {0})
  unfolding run_openocd build_write_script
  write_sketch a target = do
    refuse_if (ltb target.max_size a.size)
        (flash_error "artifact is larger than the sketch partition")
    output ← run_openocd (openocd (build_write_script a.path (hex target.address)))
    ok tt

unfoldable pub build_read_script : String → String → String → String
build_read_script dest addr count =
    preamble
    <> guarded ("dump_image " <> dest <> " " <> addr <> " " <> count) "READ-FAILED"
    <> "echo \"READ-OK\"\n"
    <> trailing_reset

-- The file that the script should have written.
unfoldable pub check_dump : Option Bytes → ℕ → Outcome (Unit {0})
check_dump none count = raised (flash_error "openocd reported success but the file was not written")
check_dump (some b) count =
    refuse_if (not (eqb (length b) count))
      (flash_error "openocd reported success but the size differs")

-- `made` is the directory of the file, `removed` the removal of an old one, and `dump` what the script left
-- there; `decimal` and `hex` print numbers.
module _ (openocd : String → Ran) (hex decimal : ℕ → String)
    (made removed : Outcome (Unit {0})) where
  unfoldable pub read_partition : Option Bytes → String → ℕ → ℕ → Outcome (Unit {0})
  unfolding run_openocd build_read_script check_dump
  read_partition dump dest address count = do
    made
    removed
    output ← run_openocd (openocd (build_read_script dest (hex address) (decimal count)))
    check_dump dump count

  -- `tmp.read_bytes()` gives `contents`.
  unfoldable pub read_resident_header : Option Bytes → Outcome Bytes → ℕ → Outcome SketchHeader
  unfolding read_partition
  read_resident_header dump contents address = do
    read_partition dump "/tmp/unoq-ota-resident-header.bin" address 16
    b ← contents
    parse_header b

-- A call of systemctl, or the code that runs while the router is stopped.
pub data Call : Type 0 where
  list_dependencies : Call
  is_active : List String → Call
  stop : Call
  start : List String → Call
  body : Call

-- `systemctl` answers may depend on the calls before, the newest first. `names_in` are the lines of an
-- answer less their decoration, `words_in` is `split`, and `is_service` the test on the ending.
pub record Systemd : Type 0 where
  pub unit : String
  pub run : List Call → Call → Ran
  pub names_in : String → List String
  pub words_in : String → List String
  pub is_service : String → Bool

module _ (sd : Systemd) where
  -- The services among the names, each once, and none of them the unit itself.
  unfoldable pub candidates_among : List String → List String → List String
  candidates_among found [] = found
  candidates_among found (name ∷ names) =
      let skipped =
        not (sd.is_service name)
        || name == sd.unit
        || name == sd.unit <> ".service"
        || contains found name in
      candidates_among (if skipped then found else found ++ name ∷ []) names

  unfoldable pub candidates_in : Ran → List String
  unfolding candidates_among
  candidates_in (finished code out err) =
      if is_zero code then candidates_among [] (sd.names_in out) else []
  candidates_in _ = []

  unfoldable pub active_among : List String → List String → List String
  active_among [] states = []
  active_among (name ∷ names) [] = []
  active_among (name ∷ names) (state ∷ states) =
      let rest = active_among names states in if state == "active" then name ∷ rest else rest

  abbrev pub active_in : List String → Ran → List String
  active_in names (finished code out err) = active_among names (sd.words_in out)
  active_in names _ = []

  abbrev pub ask_active : List String → List Call → List String × List Call
  ask_active [] t = ([], t)
  ask_active (name ∷ names) t =
      (active_in (name ∷ names) (sd.run t (is_active (name ∷ names))), is_active (name ∷ names) ∷ t)

  unfoldable pub running_dependents : List Call → List String × List Call
  unfolding candidates_in active_among
  running_dependents t =
      ask_active (candidates_in (sd.run t list_dependencies)) (list_dependencies ∷ t)

  abbrev pub succeeded : Ran → Bool
  succeeded (finished code out err) = is_zero code
  succeeded _ = false

  module _ {A : Type 0} (act : List Call → Outcome A) where
    -- `finally`: what comes last comes after code that returned and after code that raised.
    abbrev pub finally : Outcome A × List Call → (List Call → List Call) → Outcome A × List Call
    finally (ok a, t) last = (ok a, last t)
    finally (raised e, t) last = (raised e, last t)

    -- `if stopped: ...`
    abbrev pub restart : Bool → List String → List Call → List Call
    restart true restore t = start (sd.unit ∷ restore) ∷ t
    restart false restore t = t

    unfoldable pub router_stopped : List Call → Outcome A × List Call
    unfolding running_dependents
    router_stopped t =
        let (restore, t') = running_dependents t in
        let stopped = succeeded (sd.run t' stop) in
        finally (act (stop ∷ t'), body ∷ stop ∷ t') (restart stopped restore)
