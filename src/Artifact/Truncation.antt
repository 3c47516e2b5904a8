-- ===== src/Artifact/Truncation.antt =====
-- `load_artifact` on a prefix of an image, as an interrupted download leaves it.
use unoq_ota.Prelude.{
  ℕ, ◌≤◌, ◌≡◌, inl, inr, true, String, ◌∷◌, ◌++◌, length, arith, length-append, get_or-append,
}
use unoq_ota.Outcome.{Raised, ok, raised}
use unoq_ota.Artifact.{Bytes, long_at, SketchArtifact, load_artifact}
use unoq_ota.Artifact.Validity.{
  IsFlashable, load_bytes-IsFlashable, is_artifact_error, load_bytes-cases,
}

long_at-append : (b rest : Bytes) → 52 ≤ length b → long_at (b ++ rest) 8 ≡ long_at b 8
long_at-append b rest h = omega (
  arith,
  get_or-append b rest 8 0 (omega arith),
  get_or-append b rest 9 0 (omega arith),
  get_or-append b rest 10 0 (omega arith),
  get_or-append b rest 11 0 (omega arith),
)

IsFlashable-prefix :
    (b : Bytes) (x : ℕ) (rest : Bytes) → IsFlashable (b ++ x ∷ rest) → ¬ IsFlashable b
IsFlashable-prefix b x rest long short = omega (
  arith,
  long.whole,
  short.whole,
  long_at-append b (x ∷ rest) short.elf,
  length-append b (x ∷ rest),
)

-- If an image loads, then the same image cut short anywhere does not: the outcome is an
-- `ArtifactError`.
pub load_artifact_truncated :
    (path : String) (b : Bytes) (x : ℕ) (rest : Bytes) (a : SketchArtifact)
    → load_artifact path (ok (b ++ x ∷ rest)) ≡ ok a
    → (e : Raised) × (load_artifact path (ok b) ≡ raised e) × (is_artifact_error e ≡ true)
unfolding load_artifact
load_artifact_truncated path b x rest a h = elim (load_bytes-cases path b) [
  | inl loads ↦ absurd (
      IsFlashable-prefix b x rest (load_bytes-IsFlashable path (b ++ x ∷ rest) a h)
        (load_bytes-IsFlashable path b loads.0 loads.1))
  | inr refused ↦ refused
]
