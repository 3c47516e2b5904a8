-- ===== src/Agent/Install.antt =====
-- The second half of `run_once`: gate, flash, health, host payload and commit.
use unoq_ota.Prelude.{String, Bool, true, false, ◌&&◌, not, Option, none, some, ◌<>◌, if◌then◌else◌}
use unoq_ota.Outcome.{Outcome, ok, raised, flash_error, host_error, os_error, message, refuse_if}
use unoq_ota.Python.{Python, Fields, get_field, as_dict}
use unoq_ota.Artifact.{Bytes, SketchArtifact}
use unoq_ota.Preflight.{detect_drift}
use unoq_ota.State.{State, Phase}
use unoq_ota.Interfaces.{Update, Status}
use unoq_ota.Agent.World.{
  FileName, current, previous, staged, read, World, Env, unlink, copy, done, installed,
  flash_gate_asked, router_stopped, router_started, host_applied, host_rolled_back, host_restarted,
  host_probed, resident_read, log,
}
use unoq_ota.Agent.Cycle.{Cycle, pure, lift, raise, caught, call, swallow, perform, ◌>>=◌, ◌>>◌}
use unoq_ota.Agent.Store.{clear, put, load_state, save_state, set_phase, record_attempt}
use unoq_ota.Agent.Rollback.{report, is_file, is_healthy, rollback}

-- `_host_block`
abbrev pub host_block : Update → Option Fields
host_block u = as_dict (get_field "host_payload" u.manifest)

-- the state that a commit saves
abbrev pub with_commit : Update → Bool → State → State
with_commit u had_current s = record s {
  previous_version = if had_current then s.committed_version else s.previous_version;
  committed_version = some u.version;
  sequence = u.sequence;
  phase = Phase.committed;
  version = some u.version;
}

module _ {py : Python} (env : Env py) where
  -- `_atomic_copy`: without a source `read_bytes` raises, and the destination stays
  abbrev pub copy_bytes : FileName → FileName → Option Bytes → Cycle py (Unit {0})
  copy_bytes m n none w = (raised (os_error "no such file"), log (done (copy m n) false) w)
  copy_bytes m n (some b) w = perform env (copy m n) w

  unfoldable pub atomic_copy : FileName → FileName → Cycle py (Unit {0})
  unfolding perform
  atomic_copy m n w = copy_bytes m n (read m w.files) w

  unfoldable pub copy_images : Cycle py Bool
  unfolding atomic_copy
  copy_images = do
    had_current ← is_file env current
    if had_current then atomic_copy current previous else pure tt
    atomic_copy staged current
    pure had_current

  unfoldable pub after_copy : Update → Outcome Bool → Cycle py Phase
  unfolding report set_phase
  after_copy u (raised e) = do
    report env u Status.rejected ("commit copy failed: " <> message e)
    set_phase env Phase.idle clear
    pure Phase.idle
  after_copy u (ok had_current) = do
    s ← load_state env
    swallow (save_state env (with_commit u had_current s))
    report env u Status.committed "healthy"
    pure Phase.committed

  unfoldable pub commit : Update → Cycle py Phase
  unfolding copy_images after_copy
  commit u = do r ← caught copy_images; after_copy u r

  unfoldable pub restart_host : Option (World py → Outcome (Unit {0})) → Cycle py (Unit {0})
  restart_host none = pure tt
  restart_host (some restart) = call (λ _. host_restarted) restart

  unfoldable pub check_host : Option (World py → Outcome Bool) → Cycle py (Unit {0})
  check_host none = pure tt
  check_host (some healthy) = do
    b ← call (λ _. host_probed) healthy
    lift (refuse_if (not b) (host_error "host health check failed"))

  unfoldable pub swap_host : Cycle py (Unit {0})
  unfolding restart_host check_host
  swap_host = do
    call (λ _. host_applied) env.apply_host
    restart_host env.host_restart
    check_host env.host_health

  unfoldable pub after_swap_host : Outcome (Unit {0}) → Cycle py Bool
  after_swap_host (ok t) = pure true
  after_swap_host (raised e) = do
    swallow (call (λ _. host_rolled_back) env.rollback_host)
    pure false

  -- `_apply_host_if_present`, by the manifest's block
  unfoldable pub apply_host_block : Option Fields → Cycle py Bool
  unfolding swap_host after_swap_host
  apply_host_block none = pure true
  apply_host_block (some b) = do r ← caught swap_host; after_swap_host r

  unfoldable pub health_stage : Update → Cycle py Phase
  unfolding apply_host_block
  health_stage u = do
    set_phase env Phase.health_check (put u.version)
    mcu_ok ← is_healthy env u.version
    host_ok ← if mcu_ok then apply_host_block (host_block u) else pure true
    if mcu_ok && host_ok then commit u else rollback env u

  -- `with self._router_stopped()`; that context manager raises nothing of its own
  unfoldable pub flash_update : Update → SketchArtifact → Cycle py (Unit {0})
  flash_update u a = do
    call (λ _. router_stopped) (λ _. ok tt)
    r ← caught (call (λ _. installed u.version a) (λ w. env.flash w a))
    call (λ _. router_started) (λ _. ok tt)
    lift r

  unfoldable pub after_flash : Update → Outcome (Unit {0}) → Cycle py Phase
  unfolding report set_phase
  after_flash u (ok t) = health_stage u
  after_flash u (raised (flash_error m)) = do
    report env u Status.rejected ("flash failed: " <> m)
    set_phase env Phase.idle clear
    pure Phase.idle
  after_flash u (raised e) = raise e

  unfoldable pub flash_stage : Update → SketchArtifact → Cycle py Phase
  unfolding flash_update
  flash_stage u a = do
    swallow (record_attempt env u.version)
    set_phase env Phase.flashing (put u.version)
    report env u Status.flashing "writing sketch partition"
    r ← caught (flash_update u a)
    after_flash u r

  abbrev reread : World py → Option Bytes → Option (Outcome Bytes)
  reread w none = none
  reread w (some b) = some (env.read_bytes w b)

  -- `detect_drift` on the believed image, which is read again, and the resident header; the event stands
  -- for the comparison, which reads that header only where there is an image
  unfoldable pub drifted : Cycle py Bool
  unfolding detect_drift
  drifted =
      call (λ _. resident_read)
        (λ w. ok (detect_drift (reread w w.files.current_bin) (env.resident_header w)))

  unfoldable pub after_unlink : Outcome (Unit {0}) → Cycle py (Unit {0})
  after_unlink (ok t) = pure tt
  after_unlink (raised (os_error m)) = pure tt
  after_unlink (raised e) = raise e

  unfoldable pub discard_believed : Bool → Cycle py (Unit {0})
  unfolding after_unlink
  discard_believed false = pure tt
  discard_believed true = do r ← caught (perform env (unlink current)); after_unlink r

  unfoldable pub drift_stage : Update → SketchArtifact → Cycle py Phase
  unfolding drifted discard_believed
  drift_stage u a = do
    drift ← drifted
    believed ← is_file env current
    discard_believed (drift && believed)
    flash_stage u a

  unfoldable pub after_gate : Update → SketchArtifact → Bool × String → Cycle py Phase
  unfolding report
  after_gate u a (true, reason) = drift_stage u a
  after_gate u a (false, reason) = do report env u Status.waiting_for_gate reason; pure Phase.staged

  unfoldable pub gate_stage : Update → SketchArtifact → Cycle py Phase
  unfolding after_gate set_phase
  gate_stage u a = do
    set_phase env Phase.staged (put u.version)
    answer ← call flash_gate_asked env.may_flash
    after_gate u a answer
