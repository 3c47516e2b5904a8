-- ===== src/Tests/Flashing.antt =====
-- OpenOCD's verdict and the router's window at concrete inputs.
use unoq_ota.Prelude.{ℕ, pos, ◌≡◌, ◌↔◌, refl, String, true, Option, some, List, [], ◌∷◌}
use unoq_ota.Outcome.{Outcome, ok, raised, flash_error}
use unoq_ota.Tests.Device.{sketch, board}
use unoq_ota.Flasher.{
  Ran, finished, Systemd, Call, stop, start, body, list_dependencies, is_active, router_stopped,
  write_sketch, run_openocd, read_partition,
}
use unoq_ota.Flasher.Sketch.{IsWritten, write_sketch-writes}
use unoq_ota.Flasher.Dump.{IsDumped, read_steps, read_partition-reads}
use unoq_ota.Flasher.Window.{IsWindow, router_stopped-restores}

abbrev verified_run : String → Ran
verified_run script = finished (pos 0) "WRITE-AND-VERIFY-OK" ""

abbrev address_text : ℕ → String
address_text n = "0x080f0000"

write_sketch-writes_example :
    (write_sketch verified_run address_text sketch board ≡ ok tt)
    ↔ IsWritten verified_run address_text sketch board
write_sketch-writes_example = write_sketch-writes verified_run address_text sketch board

abbrev decimal_text : ℕ → String
decimal_text n = "2"

abbrev dumped : Option (List ℕ)
dumped = some (1 ∷ 2 ∷ [])

read_partition-reads_example :
    (read_partition verified_run address_text decimal_text
        (ok tt)
        (ok tt)
        dumped
        "/tmp/dump.bin"
        0
        2
      ≡ ok tt)
    ↔ ((◌≡◌ {A = Outcome (Unit {0})} (ok tt) (ok tt))
        × (◌≡◌ {A = Outcome (Unit {0})} (ok tt) (ok tt))
        × IsDumped verified_run
            (read_steps "/tmp/dump.bin" (address_text 0) (decimal_text 2))
            dumped
            2)
read_partition-reads_example =
    read_partition-reads verified_run address_text decimal_text (ok tt) (ok tt) dumped
      "/tmp/dump.bin" 0 2

-- Code 0 does not make up for a failure marker.
marker_refused :
    run_openocd (finished (pos 0) "VERIFY-FAILED: mismatch" "")
    ≡ raised (flash_error "VERIFY-FAILED")
unfolding run_openocd
marker_refused = refl

abbrev answer : Call → Ran
answer list_dependencies = finished (pos 0) "app.service" ""
answer (is_active names) = finished (pos 0) "active" ""
answer c = finished (pos 0) "" ""

-- A router on which one running service depends.
abbrev systemd : Systemd
systemd = record {
  unit = "arduino-router";
  run = λ t c. answer c;
  names_in = λ s. s ∷ [];
  words_in = λ s. s ∷ [];
  is_service = λ s. true;
}

abbrev failing : List Call → Outcome ℕ
failing t = raised (flash_error "timed out")

service_restored :
    (router_stopped systemd failing []).1
    ≡ start ("arduino-router" ∷ "app.service" ∷ [])
      ∷ body
      ∷ stop
      ∷ is_active ("app.service" ∷ [])
      ∷ list_dependencies
      ∷ []
unfolding router_stopped
service_restored = refl

router_stopped-restores_example : IsWindow systemd failing [] (router_stopped systemd failing [])
router_stopped-restores_example = router_stopped-restores systemd failing []
