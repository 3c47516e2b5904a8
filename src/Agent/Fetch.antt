-- ===== src/Agent/Fetch.antt =====
-- The first half of `run_once`: the offered update, preflight, download and verification.
use unoq_ota.Prelude.{
  ℕ, ◌+◌, ℤ, pos, max_ℤ, leb_ℤ, String, Bool, true, false, Option, none, some, ◌<>◌, ◌==◌, eqb,
  if◌then◌else◌,
}
use unoq_ota.Outcome.{
  Outcome, ok, raised, verification_error, artifact_error, preflight_error, other_error, message,
}
use unoq_ota.Python.{Python, Value, str, obj, Fields, get_field, find_field, as_str}
use unoq_ota.Artifact.{SketchArtifact}
use unoq_ota.Preflight.{check_clock, check_disk_space}
use unoq_ota.State.{State, Phase, max_attempts}
use unoq_ota.Interfaces.{Update, Status}
use unoq_ota.Agent.World.{
  FileName, staged, staged_host, World, Env, unlink, make_dir, checked, dns_ensured, clock_read,
  disk_read, fetch_gate_asked, fetched, verified, write, log,
}
use unoq_ota.Agent.Cycle.{Cycle, pure, lift, raise, caught, call, swallow, perform, ◌>>=◌, ◌>>◌}
use unoq_ota.Agent.Store.{
  clear, put, load_state, save_state, set_phase, record_attempt, poison, is_poisoned, attempts_for,
}
use unoq_ota.Agent.Rollback.{report, load_image}
use unoq_ota.Agent.Install.{host_block, gate_stage}

-- `d[k]`
abbrev subscript : String → Option Value → Outcome Value
subscript k none = raised (other_error k)
subscript k (some v) = ok v

abbrev subscript_of : String → Value → Outcome Value
subscript_of k (obj d) = subscript k (find_field k d)
subscript_of k v = raised (other_error "not subscriptable by a text")

abbrev url_in : Outcome Value → Outcome Value
url_in (ok v) = subscript_of "url" v
url_in (raised e) = raised e

-- `manifest["artifact"]["url"]`
abbrev pub artifact_url : Fields → Outcome Value
artifact_url manifest = url_in (subscript "artifact" (find_field "artifact" manifest))

-- `url` if it is a text and not empty
abbrev pub text_url : Option String → Option String
text_url none = none
text_url (some s) = if s == "" then none else some s

-- the watermark below which an update is no news
abbrev pub watermark : State → ℤ
watermark s = max_ℤ s.sequence s.last_verified_sequence

abbrev pub with_verified : Update → State → State
with_verified u s = record s {
  last_verified_sequence = u.sequence;
  last_verified_version = some u.version;
}

abbrev pub has_block : Option Fields → Bool
has_block none = false
has_block (some b) = true

module _ {py : Python} (env : Env py) where
  -- report, fall back to IDLE, and return it
  unfoldable pub defer : Update → Status → String → Cycle py Phase
  unfolding report set_phase
  defer u status detail = do
    report env u status detail
    set_phase env Phase.idle clear
    pure Phase.idle

  unfoldable pub unlink_staged : Cycle py (Unit {0})
  unlink_staged = do perform env (unlink staged); perform env (unlink staged_host)

  -- the branch for `no_flash`
  unfoldable pub stamp_verified : Update → Cycle py Phase
  unfolding unlink_staged defer
  stamp_verified u = do
    unlink_staged
    s ← load_state env
    save_state env (with_verified u s)
    defer u Status.verified "verified, not applied"

  unfoldable pub reject_poisoned : Update → String → Cycle py Phase
  unfolding report set_phase
  reject_poisoned u detail = do
    swallow (record_attempt env u.version)
    swallow (poison env u.version)
    report env u Status.rejected detail
    set_phase env Phase.rejected (put u.version)
    pure Phase.rejected

  -- `if self.no_flash`
  unfoldable pub apply_verified : Bool → Update → SketchArtifact → Cycle py Phase
  unfolding stamp_verified
  apply_verified true u a = stamp_verified u
  apply_verified false u a = gate_stage env u a

  unfoldable pub after_verify : Update → Outcome SketchArtifact → Cycle py Phase
  unfolding apply_verified reject_poisoned
  after_verify u (ok a) = apply_verified env.no_flash u a
  after_verify u (raised (verification_error m true)) = reject_poisoned u m
  after_verify u (raised (verification_error m false)) = defer u Status.rejected m
  after_verify u (raised (artifact_error m)) = reject_poisoned u m
  after_verify u (raised e) = defer u Status.rejected ("verify/load error: " <> message e)

  -- the `try` block: the manifest against the sequence on disk, then the staged artifact
  unfoldable pub verify_and_load : Update → Cycle py SketchArtifact
  verify_and_load u = do
    s ← load_state env
    call (verified u.version) (λ w. env.verify w u s.sequence)
    load_image env staged

  unfoldable pub verify_stage : Update → Cycle py Phase
  unfolding verify_and_load after_verify
  verify_stage u = do
    set_phase env Phase.verifying (put u.version)
    r ← caught (verify_and_load u)
    after_verify u r

  -- `self._fetch(url, dest)`
  abbrev pub fetch_to : Value → FileName → Cycle py (Unit {0})
  fetch_to url name w =
      let (r, contents) = env.fetch w url name in
      (r, log (fetched url name) (record w { files = write name contents w.files }))

  unfoldable pub after_host_download : Update → Outcome (Unit {0}) → Cycle py Phase
  unfolding defer
  after_host_download u (ok t) = verify_stage u
  after_host_download u (raised e) = defer u Status.rejected ("host download failed: " <> message e)

  unfoldable pub download_host : Update → Option String → Cycle py Phase
  unfolding after_host_download
  download_host u none = defer u Status.rejected "manifest host_payload has no url"
  download_host u (some url) = do
    r ← caught (fetch_to (str url) staged_host)
    after_host_download u r

  unfoldable pub host_stage : Update → Option Fields → Cycle py Phase
  unfolding download_host
  host_stage u none = verify_stage u
  host_stage u (some block) = download_host u (text_url (as_str (get_field "url" block)))

  unfoldable pub after_download : Update → Outcome (Unit {0}) → Cycle py Phase
  unfolding host_stage defer
  after_download u (ok t) = host_stage u (host_block u)
  after_download u (raised e) = defer u Status.rejected ("download failed: " <> message e)

  unfoldable pub download_stage : Update → Cycle py Phase
  unfolding after_download
  download_stage u = do
    set_phase env Phase.downloading (put u.version)
    report env u Status.downloading "fetching artifact"
    r ← caught (do url ← lift (artifact_url u.manifest); fetch_to url staged)
    after_download u r

  -- a gate with no `may_fetch` allows the fetch
  unfoldable pub fetch_gate : Option (World py → Outcome (Bool × String)) → Update → Cycle py Phase
  unfolding download_stage defer
  fetch_gate none u = download_stage u
  fetch_gate (some may_fetch) u = do
    answer ← call (λ _. fetch_gate_asked) may_fetch
    if answer.0 then download_stage u else defer u Status.waiting_for_gate answer.1

  unfoldable pub check_space : ℕ → Cycle py (Unit {0})
  unfolding check_disk_space
  check_space needed = call (λ _. disk_read) (λ w. check_disk_space (env.free_space w) needed)

  unfoldable pub preflight_checks : Update → Cycle py (Unit {0})
  unfolding check_clock check_space
  preflight_checks u = do
    call (λ _. clock_read) (λ w. check_clock (env.utc_year w))
    let host_bytes = if has_block (host_block u) then env.host_max_bytes else 0
    check_space (env.target.max_size + host_bytes)
    if eqb host_bytes 0 then pure tt else check_space host_bytes

  unfoldable pub after_preflight : Update → Outcome (Unit {0}) → Cycle py Phase
  unfolding fetch_gate defer
  after_preflight u (ok t) = fetch_gate env.may_fetch u
  after_preflight u (raised (preflight_error m)) = defer u Status.waiting_for_gate m
  after_preflight u (raised e) = raise e

  unfoldable pub preflight_stage : Update → Cycle py Phase
  unfolding preflight_checks after_preflight
  preflight_stage u = do perform env make_dir; r ← caught (preflight_checks u); after_preflight u r

  unfoldable pub up_to_date : Update → Cycle py Phase
  unfolding unlink_staged report
  up_to_date u = do unlink_staged; report env u Status.verified "up to date"; pure Phase.idle

  unfoldable pub compare_sequence : Update → Cycle py Phase
  unfolding up_to_date preflight_stage
  compare_sequence u = do
    s ← load_state env
    if leb_ℤ u.sequence (watermark s) then up_to_date u else preflight_stage u

  unfoldable pub reject_capped : Update → Bool → Cycle py Phase
  unfolding report set_phase
  reject_capped u poisoned = do
    swallow (poison env u.version)
    report env u Status.rejected (if poisoned then "version is poisoned" else "exceeded 2 attempts")
    set_phase env Phase.rejected (put u.version)
    pure Phase.rejected

  -- `poisoned or attempts_for(...) >= MAX_ATTEMPTS`
  unfoldable pub is_capped : String → Bool → Cycle py Bool
  unfolding attempts_for
  is_capped v true = pure true
  is_capped v false = do n ← attempts_for env v; pure (leb_ℤ (pos max_attempts) n)

  unfoldable pub consider : Option Update → Cycle py Phase
  unfolding is_capped reject_capped compare_sequence is_poisoned
  consider none = pure Phase.idle
  consider (some u) = do
    poisoned ← is_poisoned env u.version
    capped ← is_capped u.version poisoned
    if capped then reject_capped u poisoned else compare_sequence u

  unfoldable pub run_once : Cycle py Phase
  unfolding consider
  run_once = do
    swallow (call (λ _. dns_ensured) env.ensure_dns)
    offered ← call (λ _. checked) env.check
    consider offered

-- One cycle after another, as `_run` of cli.py makes them. An exception that escapes ends the
-- process, which systemd starts again on the same files.
unfoldable pub run_cycles : {py : Python} → Env py → ℕ → World py → World py
unfolding run_once
run_cycles env ℕ.zero w = w
run_cycles env (ℕ.suc n) w = run_cycles env n (run_once env w).1
