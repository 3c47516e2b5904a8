-- ===== src/Agent/Rollback.antt =====
-- The agent's health checks, and the rollback at the end of `run_once`.
use unoq_ota.Prelude.{
  String, Bool, true, false, Option, none, some, List, [], ◌∷◌, ◌==◌, ◌<>◌, if◌then◌else◌,
}
use unoq_ota.Outcome.{Outcome, ok, raised}
use unoq_ota.Python.{Python}
use unoq_ota.State.{State, Phase}
use unoq_ota.Artifact.{SketchArtifact}
use unoq_ota.Interfaces.{Update, Status}
use unoq_ota.Agent.World.{
  FileName, current, previous, golden, staged, staged_host, read, Env, World, reported, loaded,
  restored, health_probed, alive_probed,
}
use unoq_ota.Agent.Cycle.{Cycle, pure, caught, call, swallow, ◌>>=◌, ◌>>◌}
use unoq_ota.Agent.Store.{clear, put, load_state, set_phase, poison}

abbrev pub is_some {ℓ} : {A : Type ℓ} → Option A → Bool
is_some none = false
is_some (some a) = true

abbrev or_false : Outcome Bool → Bool
or_false (ok b) = b
or_false (raised e) = false

-- an empty text is no version
abbrev nonempty : Option String → Option String
nonempty none = none
nonempty (some v) = if v == "" then none else some v

abbrev or_none : Outcome (Option String) → Option String
or_none (ok o) = o
or_none (raised e) = none

-- what the state says that an image of this name runs
abbrev pub expected_version : FileName → State → Option String
expected_version current s = s.committed_version
expected_version previous s = s.previous_version
expected_version _ s = none

abbrev pub accept_version : Option String → String → Option String
accept_version none v = some v
accept_version (some e) v = if v == e then some v else none

abbrev pub rollback_candidates : List FileName
rollback_candidates = current ∷ previous ∷ golden ∷ []

abbrev pub image_name : FileName → String
image_name current = "current.bin"
image_name previous = "previous.bin"
image_name golden = "golden.bin"
image_name staged = "staged.bin"
image_name staged_host = "staged-host.tar.gz"

module _ {py : Python} (env : Env py) where
  unfoldable pub report : Update → Status → String → Cycle py (Unit {0})
  report u status detail =
      call (λ _. reported u.version status detail) (λ w. env.report w u.version status detail)

  abbrev pub is_file : FileName → Cycle py Bool
  is_file n w = (ok (is_some (read n w.files)), w)

  unfoldable pub is_healthy : String → Cycle py Bool
  is_healthy v = do
    r ← caught (call (health_probed v) (λ w. env.wait_healthy w v))
    pure (or_false r)

  -- With no callable `wait_alive`, the version is alive where `wait_healthy` says so.
  unfoldable pub alive_version :
      Option (World py → String → Outcome (Option String)) → String → Cycle py (Option String)
  alive_version none v = do
    b ← call (health_probed v) (λ w. env.wait_healthy w v)
    pure (if b then some v else none)
  alive_version (some f) v = do o ← call (alive_probed v) (λ w. f w v); pure (nonempty o)

  unfoldable pub wait_alive : String → Cycle py (Option String)
  unfolding alive_version
  wait_alive v = do r ← caught (alive_version env.wait_alive v); pure (or_none r)

  unfoldable pub expected_image_version : FileName → Cycle py (Option String)
  expected_image_version n = do s ← load_state env; pure (expected_version n s)

  -- the tests on the version that a candidate reported, which give it if it stands
  unfoldable pub judge : Update → FileName → Option String → Cycle py (Option String)
  unfolding expected_image_version
  judge u n none = pure none
  judge u n (some v) =
      if v == u.version
      then pure none
      else (do e ← expected_image_version n; pure (accept_version e v))

  abbrev pub load_image : FileName → Cycle py SketchArtifact
  load_image n = call (loaded n) (λ w. env.load w n)

  unfoldable pub flash_candidate : FileName → Cycle py (Unit {0})
  flash_candidate n = do a ← load_image n; call (λ _. restored n a) (λ w. env.flash w a)

  unfoldable pub after_flash_candidate :
      Update → FileName → Outcome (Unit {0}) → Cycle py (Option String)
  unfolding judge wait_alive
  after_flash_candidate u n (raised e) = pure none
  after_flash_candidate u n (ok t) = do v ← wait_alive u.version; judge u n v

  -- one round of the loop over the candidates: the version that it restored, or none
  unfoldable pub restore : Update → FileName → Cycle py (Option String)
  unfolding after_flash_candidate flash_candidate
  restore u n = do
    present ← is_file n
    if present then (do r ← caught (flash_candidate n); after_flash_candidate u n r) else pure none

  unfoldable pub rolled_back : Update → FileName → String → Cycle py Phase
  unfolding report set_phase
  rolled_back u n v = do
    report u Status.rolled_back ("restored " <> image_name n <> " running " <> v)
    set_phase env Phase.rolled_back clear
    pure Phase.rolled_back

  unfoldable pub exhausted : Update → Cycle py Phase
  unfolding report set_phase
  exhausted u = do
    report u Status.rejected "no usable rollback image was available"
    set_phase env Phase.rejected clear
    pure Phase.rejected

  unfoldable pub try_candidates : Update → List FileName → Cycle py Phase
  unfolding exhausted rolled_back restore
  try_candidates u [] = exhausted u
  try_candidates u (n ∷ names) = do
    done ← restore u n
    elim done [ none ↦ try_candidates u names | some v ↦ rolled_back u n v ]

  unfoldable pub rollback : Update → Cycle py Phase
  unfolding try_candidates
  rollback u = do
    set_phase env Phase.rolling_back (put u.version)
    swallow (poison env u.version)
    try_candidates u rollback_candidates
