-- ===== src/Flasher/Dump.antt =====
-- When `read_partition` (unoq_ota/flasher.py) returns.
use unoq_ota.Prelude.{
  ℕ, pos, ◌≡◌, ◌↔◌, refl, String, ◌<>◌, Option, none, some, length, arith, ap, sym, ◌∙◌,
}
use unoq_ota.Outcome.{Outcome, ok, ◌>>=◌, ◌>>◌, bind-ok}
use unoq_ota.Artifact.{Bytes}
use unoq_ota.Flasher.{Ran, finished, run_openocd, build_read_script, check_dump, read_partition}
use unoq_ota.Flasher.Sketch.{failures, step, Runs, IsClean, run_openocd-ok, run_openocd-finished}

-- Dump this many bytes at the address into the file, and then the rest.
abbrev pub read_steps : String → String → String → String → String
read_steps dest address count rest =
    step ("dump_image " <> dest <> " " <> address <> " " <> count) "READ-FAILED" <> rest

Runs-read :
    (dest address count : String)
    → Runs (build_read_script dest address count) (read_steps dest address count) "READ-OK"
unfolding build_read_script
Runs-read dest address count = refl

-- OpenOCD ran on the script of these steps to code 0 with no failure marker in either stream, and the file holds as
-- many bytes as were asked for.
pub record IsDumped (openocd : String → Ran) (steps : String → String) (dump : Option Bytes)
    (count : ℕ) : Type 0 where
  pub out : String
  pub err : String
  pub script : String
  pub scripted : Runs script steps "READ-OK"
  pub ran : openocd script ≡ finished (pos 0) out err
  pub clean : IsClean failures (out <> err)
  pub bytes : Bytes
  pub left : dump ≡ some bytes
  pub exact : length bytes ≡ count

check_dump-ok :
    (dump : Option Bytes) (count : ℕ)
    → check_dump dump count ≡ ok tt
    → (b : Bytes) × (dump ≡ some b) × (length b ≡ count)
unfolding check_dump
check_dump-ok none count h = absurd (cc h)
check_dump-ok (some b) count h = (b, refl, ground (arith, h))

check_dump-exact : (b : Bytes) (count : ℕ) → length b ≡ count → check_dump (some b) count ≡ ok tt
unfolding check_dump
check_dump-exact b count e = ground (arith, e)

-- `read_partition` returns exactly when the directory is there and an old file is out of the way, OpenOCD,
-- given the script that halts the target and dumps that many bytes at the address into it, ends with code 0 and leaves none of the failure markers in its output, and the file
-- then holds as many bytes as were asked for.
pub read_partition-reads :
    (openocd : String → Ran) (hex decimal : ℕ → String) (made removed : Outcome (Unit {0}))
    (dump : Option Bytes) (dest : String) (address count : ℕ)
    → (read_partition openocd hex decimal made removed dump dest address count ≡ ok tt) ↔ (
        (made ≡ ok tt)
        × (removed ≡ ok tt)
        × IsDumped openocd (read_steps dest (hex address) (decimal count)) dump count)
unfolding read_partition
read_partition-reads openocd hex decimal made removed dump dest address count =
    let script = build_read_script dest (hex address) (decimal count) in
    let run = run_openocd (openocd script) in
    (
      λ h.
          let (t, is_made, h1) =
            bind-ok made (λ t. removed >> (run >>= λ output. check_dump dump count)) tt h in
          let (t', is_removed, h2) =
            bind-ok removed (λ t. run >>= λ output. check_dump dump count) tt h1 in
          let (x, ran, h3) = bind-ok run (λ output. check_dump dump count) tt h2 in
          let (out, err, e, clean) = run_openocd-ok (openocd script) x ran in
          let (b, left, exact) = check_dump-ok dump count h3 in
          (
            is_made,
            is_removed,
            record {
              script = script;
              scripted = Runs-read dest (hex address) (decimal count);
              out = out;
              err = err;
              ran = e;
              clean = clean;
              bytes = b;
              left = left;
              exact = exact;
            },
          ),
      λ w.
          let (is_made, is_removed, d) = w in
          rw
            (
              is_made,
              is_removed,
              run_openocd-finished (openocd script) d.out d.err
                  (ap openocd (Runs-read dest (hex address) (decimal count) ∙ sym d.scripted)
                    ∙ d.ran)
                  d.clean,
              d.left,
            )
            (check_dump-exact d.bytes count d.exact),
    )
