-- ===== src/Preflight.antt =====
-- unoq_ota/preflight.py: the checks before an update. The clock, the free space of a file system and
-- the header read over SWD are parameters.
use unoq_ota.Prelude.{ℕ, ◌+◌, Bool, true, not, ◌&&◌, Option, none, some, ltb, eqb}
use unoq_ota.Outcome.{Outcome, ok, raised, preflight_error, os_error, refuse_if}
use unoq_ota.Artifact.{Bytes, SketchHeader, parse_header}

abbrev pub max_payload_bytes : ℕ
max_payload_bytes = 4000000

abbrev pub floor_year : ℕ
floor_year = 2020

abbrev pub margin_bytes : ℕ
margin_bytes = 50000000

-- `year` is that of the instant in UTC.
unfoldable pub check_clock : ℕ → Outcome (Unit {0})
check_clock year =
    refuse_if (ltb year floor_year)
      (preflight_error "implausible system clock; deferring until time is synchronised")

-- `free` is what `shutil.disk_usage` gives for the path, or for its parent.
unfoldable pub check_disk_space : Outcome ℕ → ℕ → Outcome (Unit {0})
check_disk_space (ok free) needed =
    refuse_if (ltb free (needed + margin_bytes)) (preflight_error "insufficient disk space")
check_disk_space (raised (os_error m)) needed = raised (preflight_error m)
check_disk_space (raised e) needed = raised e

-- The comparison of lengths and magics.
abbrev pub headers_differ : SketchHeader → SketchHeader → Bool
headers_differ expected resident =
    not (eqb expected.length resident.length && eqb expected.magic resident.magic)

abbrev differ_or_unknown : Outcome SketchHeader → Outcome SketchHeader → Bool
differ_or_unknown (ok expected) (ok resident) = headers_differ expected resident
differ_or_unknown (ok expected) (raised e) = true
differ_or_unknown (raised e) r = true

abbrev header_read : Outcome Bytes → Outcome SketchHeader
header_read (ok b) = parse_header b
header_read (raised e) = raised e

-- None where there is no believed image, else what reading it gave.
unfoldable pub detect_drift : Option (Outcome Bytes) → Outcome SketchHeader → Bool
unfolding parse_header
detect_drift none resident = true
detect_drift (some believed) resident = differ_or_unknown (header_read believed) resident
