-- ===== src/Artifact/Validity.antt =====
-- What `load_artifact` accepts, against the description in the module's docstring.
use unoq_ota.Prelude.{
  ◌+◌, ◌*◌, ◌/◌, ◌%◌, ◌≤◌, ◌≡◌, ◌↔◌, ◌⊎◌, inl, inr, Bool, true, false, String, length, get_or,
  arith,
}
use unoq_ota.Outcome.{Outcome, ok, raised, Outcome-cases, Raised, artifact_error}
use unoq_ota.Artifact.{
  Bytes, SketchArtifact, SketchHeader, word_at, long_at, load_bytes, load_artifact,
}

-- A complete ELF with a version 1 sketch header that does not wait for an application.
pub record IsFlashable (b : Bytes) : Type 0 where
  pub elf : 52 ≤ length b
  pub version : get_or b 7 0 ≡ 1
  pub magic : word_at b 12 ≡ 0x2341
  pub immediate : get_or b 14 0 / 8 % 2 ≡ 0
  pub whole : long_at b 8 ≡ length b
  pub table : long_at b 32 + word_at b 48 * word_at b 46 ≡ length b

abbrev pub header_of : Bytes → SketchHeader
header_of b = record {
  ver = get_or b 7 0;
  length = long_at b 8;
  magic = word_at b 12;
  flags = get_or b 14 0;
}

abbrev pub artifact_of : String → Bytes → SketchArtifact
artifact_of path b = record { path = path; header = header_of b; size = length b; contents = b }

abbrev pub is_artifact_error : Raised → Bool
is_artifact_error (artifact_error m) = true
is_artifact_error _ = false

load_bytes-ok :
    (path : String) (b : Bytes) → IsFlashable b → load_bytes path b ≡ ok (artifact_of path b)
unfolding load_bytes
load_bytes-ok path b v = ground arith

pub load_bytes-IsFlashable :
    (path : String) (b : Bytes) (a : SketchArtifact) → load_bytes path b ≡ ok a → IsFlashable b
unfolding load_bytes
load_bytes-IsFlashable path b a h = ground arith

load_bytes-raises :
    (path : String) (b : Bytes) (e : Raised)
    → load_bytes path b ≡ raised e
    → is_artifact_error e ≡ true
unfolding load_bytes
load_bytes-raises path b e h = ground arith

-- `load_artifact` returns an artifact, with the header, the size and the bytes of the file, exactly
-- when the file is flashable.
pub load_artifact_accepts :
    (path : String) (b : Bytes)
    → (load_artifact path (ok b) ≡ ok (artifact_of path b)) ↔ IsFlashable b
unfolding load_artifact
load_artifact_accepts path b =
    (load_bytes-IsFlashable path b (artifact_of path b), load_bytes-ok path b)

pub load_bytes-cases :
    (path : String) (b : Bytes)
    → ((a : SketchArtifact) × (load_bytes path b ≡ ok a))
      ⊎ ((e : Raised) × (load_bytes path b ≡ raised e) × (is_artifact_error e ≡ true))
load_bytes-cases path b = elim (Outcome-cases (load_bytes path b)) [
  | inl (a, h) ↦ inl (a, h)
  | inr (e, h) ↦ inr (e, h, load_bytes-raises path b e h)
]

-- Whatever `load_artifact` raises is an `ArtifactError`, except that what reading the file raised
-- other than an `OSError` escapes unchanged.
pub load_artifact-raises :
    (path : String) (bytes : Outcome Bytes) (e : Raised)
    → load_artifact path bytes ≡ raised e
    → (is_artifact_error e ≡ true) ⊎ (bytes ≡ raised e)
unfolding load_artifact
load_artifact-raises path (ok b) e h = inl (load_bytes-raises path b e h)
load_artifact-raises path (raised r) e h = ground arith
