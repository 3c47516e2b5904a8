-- ===== src/Reconciler.antt =====
-- unoq_ota/reconciler.py: the recovery at boot. What each call answers may depend on the calls before
-- it; the file system, the health check, `load` and `flash` are a parameter.
pub mod Recovery
use unoq_ota.Prelude.{String, Bool, true, false, not, Option, none, some, List, [], ◌∷◌, ◌==◌}
use unoq_ota.Outcome.{Outcome, ok, raised, Raised, os_error}
use unoq_ota.Artifact.{SketchArtifact}
use unoq_ota.Agent.World.{FileName, current, previous, golden}

pub record ReconcileResult : Type 0 where
  pub healthy : Bool
  pub action : String
  pub image : Option FileName

pub data Step : Type 0 where
  probed : Outcome (Option String) → Step
  asked : FileName → Outcome Bool → Step
  loaded : FileName → Outcome SketchArtifact → Step
  flashed : FileName → Outcome (Unit {0}) → Step

-- The steps taken, the newest first.
abbrev pub Steps : Type 0
Steps = List Step

pub record Board : Type 0 where
  pub wait_alive : Steps → Outcome (Option String)
  pub is_file : Steps → FileName → Outcome Bool
  pub load : Steps → FileName → Outcome SketchArtifact
  pub flash : Steps → SketchArtifact → Outcome (Unit {0})

-- `bool(reported)`, and False where the health check raised
abbrev pub said_alive : Outcome (Option String) → Bool
said_alive (ok (some v)) = not (v == "")
said_alive (ok none) = false
said_alive (raised e) = false

abbrev pub untouched : ReconcileResult
untouched = record { healthy = true; action = "none"; image = none }

abbrev pub reflashed : FileName → ReconcileResult
reflashed n = record { healthy = true; action = "reflashed"; image = some n }

abbrev pub exhausted : ReconcileResult
exhausted = record { healthy = false; action = "exhausted"; image = none }

abbrev pub candidates : List FileName
candidates = current ∷ previous ∷ golden ∷ []

module _ (b : Board) where
  unfoldable pub is_alive : Steps → Bool × Steps
  is_alive t = let r = b.wait_alive t in (said_alive r, probed r ∷ t)

  unfoldable pub after_flash : Outcome (Unit {0}) → Steps → Outcome Bool × Steps
  unfolding is_alive
  after_flash (ok u) t = let (alive, t') = is_alive t in (ok alive, t')
  after_flash (raised e) t = (ok false, t)

  unfoldable pub after_load : FileName → Outcome SketchArtifact → Steps → Outcome Bool × Steps
  unfolding after_flash
  after_load n (ok a) t = let r = b.flash t a in after_flash r (flashed n r ∷ t)
  after_load n (raised e) t = (ok false, t)

  -- Only an `OSError` of `is_file` is handled.
  unfoldable pub after_is_file : FileName → Outcome Bool → Steps → Outcome Bool × Steps
  unfolding after_load
  after_is_file n (ok true) t = let r = b.load t n in after_load n r (loaded n r ∷ t)
  after_is_file n (ok false) t = (ok false, t)
  after_is_file n (raised (os_error m)) t = (ok false, t)
  after_is_file n (raised e) t = (raised e, t)

  -- One round of the loop: whether the candidate revived the board.
  unfoldable pub try_image : FileName → Steps → Outcome Bool × Steps
  unfolding after_is_file
  try_image n t = let r = b.is_file t n in after_is_file n r (asked n r ∷ t)

  unfoldable pub try_images : List FileName → Steps → Outcome ReconcileResult × Steps
  unfolding try_image
  try_images [] t = (ok exhausted, t)
  try_images (n ∷ names) t =
      let (r, t') = try_image n t in
      elim r [
        | ok alive ↦ elim alive [ true ↦ (ok (reflashed n), t') | false ↦ try_images names t' ]
        | raised e ↦ (raised e, t')
      ]

  abbrev after_first_probe : Bool → Steps → Outcome ReconcileResult × Steps
  after_first_probe true t = (ok untouched, t)
  after_first_probe false t = try_images candidates t

  unfoldable pub reconcile : Steps → Outcome ReconcileResult × Steps
  unfolding try_images
  reconcile t = let (alive, t') = is_alive t in after_first_probe alive t'
