-- ===== src/Flasher/Sketch.antt =====
-- When `write_sketch` (unoq_ota/flasher.py) returns.
use unoq_ota.Prelude.{
  ℕ, ℤ, pos, ◌≤◌, ◌≡◌, ◌↔◌, refl, ap, sym, ◌∙◌, String, ◌<>◌, Bool, true, false, List, [], ◌∷◌,
  arith, if◌then◌else◌, ltb,
}
use unoq_ota.Outcome.{Outcome, ok, raised, Raised, flash_error, refuse_if, ◌>>=◌, ◌>>◌}
use unoq_ota.Artifact.{SketchArtifact}
use unoq_ota.Board.{FlashTarget}
use unoq_ota.Flasher.{
  Ran, finished, timed_out, not_found, not_started, markers, contains_text, check_markers, is_zero,
  run_openocd, build_write_script, write_sketch,
}

-- What OpenOCD prints where one of its steps fails.
abbrev pub failures : List String
failures =
    "INIT-FAILED" ∷ "PROBE-FAILED" ∷ "WRITE-FAILED" ∷ "VERIFY-FAILED" ∷ "READ-FAILED"
    ∷ "RESET-FAILED" ∷ []

-- A step of a script: the command, or its failure printed and the end of the script.
abbrev pub step : String → String → String
step command failure =
    "if {[catch {" <> command <> "} err]} { echo \"" <> failure <> ": $err\"; shutdown error }\n"

-- The script starts the target under reset and halts it, takes the steps, prints the last line, resets the
-- target and shuts down.
abbrev pub Runs : String → (String → String) → String → Type 0
Runs script steps last =
    script
    ≡ ("reset_config srst_only srst_push_pull\n"
        <> step "init" "INIT-FAILED"
        <> step "reset" "INIT-FAILED"
        <> step "halt" "INIT-FAILED")
      <> steps (("echo \"" <> last <> "\"\n") <> (step "reset" "RESET-FAILED" <> "shutdown\n"))

-- Probe the flash, write the image at the address, and verify it there, and then the rest.
abbrev pub write_steps : String → String → String → String
write_steps image address rest =
    step "flash info 0" "PROBE-FAILED"
    <> step ("flash write_image erase " <> image <> " " <> address <> " bin") "WRITE-FAILED"
    <> step ("flash verify_image " <> image <> " " <> address <> " bin") "VERIFY-FAILED"
    <> rest

-- None of these markers is in the output.
abbrev pub IsClean : List String → String → Type 0
IsClean [] output = Unit
IsClean (m ∷ ms) output = (contains_text output m ≡ false) × IsClean ms output

-- The artifact fits the partition, and OpenOCD ran to code 0, with no failure marker in either stream, on
-- the script that writes and verifies the artifact's file at the partition's address.
pub record IsWritten (openocd : String → Ran) (hex : ℕ → String) (a : SketchArtifact)
    (target : FlashTarget) : Type 0 where
  pub fits : a.size ≤ target.max_size
  pub out : String
  pub err : String
  pub script : String
  pub scripted : Runs script (write_steps a.path (hex target.address)) "WRITE-AND-VERIFY-OK"
  pub ran : openocd script ≡ finished (pos 0) out err
  pub clean : IsClean failures (out <> err)

-- One test of the loop.
marker-test :
    (found : Bool) (e : Raised) (output : String) (rest : Outcome String)
    → ((if found then raised e else rest) ≡ ok output) ↔ ((found ≡ false) × (rest ≡ ok output))
marker-test true e output rest = (λ h. absurd (cc h), λ h. absurd (cc h.0))
marker-test false e output rest = (λ h. (refl, h), λ h. h.1)

check_markers-IsClean :
    (ms : List String) (output : String) → (check_markers ms output ≡ ok output) ↔ IsClean ms output
unfolding check_markers
check_markers-IsClean [] output = (λ h. tt, λ h. refl)
check_markers-IsClean (m ∷ ms) output =
    let ih = check_markers-IsClean ms output in
    let test =
      marker-test (contains_text output m) (flash_error m) output (check_markers ms output) in
    (λ h. ((test.0 h).0, ih.0 (test.0 h).1), λ h. test.1 (h.0, ih.1 h.1))

-- What it gives, where it gives anything, is the output.
check_markers-ok :
    (ms : List String) (output x : String)
    → check_markers ms output ≡ ok x
    → check_markers ms output ≡ ok output
unfolding check_markers
check_markers-ok [] output x h = refl
check_markers-ok (m ∷ ms) output x h =
    let to = marker-test (contains_text output m) (flash_error m) x (check_markers ms output) in
    let back =
      marker-test (contains_text output m) (flash_error m) output (check_markers ms output) in
    back.1 ((to.0 h).0, check_markers-ok ms output x (to.0 h).1)

pub is_zero-pos : (n : ℤ) → is_zero n ≡ true → n ≡ pos 0
is_zero-pos n h = ground arith

code-test :
    (zero : Bool) (e : Raised) (x : String) (rest : Outcome String)
    → (if zero then rest else raised e) ≡ ok x
    → (zero ≡ true) × (rest ≡ ok x)
code-test true e x rest h = (refl, h)
code-test false e x rest h = absurd (cc h)

pub run_openocd-ok :
    (r : Ran) (x : String)
    → run_openocd r ≡ ok x
    → (out : String) × (err : String) × (r ≡ finished (pos 0) out err)
      × IsClean failures (out <> err)
unfolding run_openocd
run_openocd-ok timed_out x h = absurd (cc h)
run_openocd-ok not_found x h = absurd (cc h)
run_openocd-ok (not_started m) x h = absurd (cc h)
run_openocd-ok (finished code out err) x h =
    let (zero, passed) =
      code-test (is_zero code) (flash_error "openocd exit") x (check_markers markers (out <> err))
        h in
    (
      out,
      err,
      ap (λ n. finished n out err) (is_zero-pos code zero),
      (check_markers-IsClean markers (out <> err)).0
          (check_markers-ok markers (out <> err) x passed),
    )

pub run_openocd-finished :
    (r : Ran) (out err : String)
    → r ≡ finished (pos 0) out err
    → IsClean failures (out <> err)
    → run_openocd r ≡ ok (out <> err)
unfolding run_openocd
run_openocd-finished r out err e clean = rw e ((check_markers-IsClean markers (out <> err)).1 clean)

Runs-write :
    (image address : String)
    → Runs (build_write_script image address) (write_steps image address) "WRITE-AND-VERIFY-OK"
unfolding build_write_script
Runs-write image address = refl

-- The size test, and then the run.
abbrev size_then_run : Bool → Raised → Outcome String → Outcome (Unit {0})
size_then_run big e r = refuse_if big e >> (r >>= λ output. ok tt)

write-test :
    (big : Bool) (e : Raised) (r : Outcome String)
    → (size_then_run big e r ≡ ok tt) ↔ ((big ≡ false) × ((x : String) × (r ≡ ok x)))
write-test true e r = (λ h. absurd (cc h), λ h. absurd (cc h.0))
write-test false e (ok x) = (λ h. (refl, (x, refl)), λ h. refl)
write-test false e (raised f) = (λ h. absurd (cc h), λ h. absurd (cc h.1.1))

-- `write_sketch` returns exactly when the artifact fits the partition, and OpenOCD, given the script that
-- halts the target, probes the flash, writes the artifact's file at the target's address, verifies it
-- there and resets, ends with code 0 and prints none of the six failure markers.
pub write_sketch-writes :
    (openocd : String → Ran) (hex : ℕ → String) (a : SketchArtifact) (target : FlashTarget)
    → (write_sketch openocd hex a target ≡ ok tt) ↔ IsWritten openocd hex a target
unfolding write_sketch
write_sketch-writes openocd hex a target =
    let r = openocd (build_write_script a.path (hex target.address)) in
    let too_big = flash_error "artifact is larger than the sketch partition" in
    let test = write-test (ltb target.max_size a.size) too_big (run_openocd r) in
    (
      λ h.
          let (small, (x, ran)) = test.0 h in
          let (out, err, e, clean) = run_openocd-ok r x ran in
          record {
            fits = ground (arith, small);
            out = out;
            err = err;
            script = build_write_script a.path (hex target.address);
            scripted = Runs-write a.path (hex target.address);
            ran = e;
            clean = clean;
          },
      λ w. test.1 (
        ground (arith, w.fits),
        (
          w.out <> w.err,
          run_openocd-finished r w.out w.err
              (ap openocd (Runs-write a.path (hex target.address) ∙ sym w.scripted) ∙ w.ran)
              w.clean,
        ),
      ),
    )
