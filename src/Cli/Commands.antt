-- ===== src/Cli/Commands.antt =====
-- unoq_ota/cli.py: fetching an artifact, building the agent, and the other commands. The target, the keys,
-- the SDK, systemd and the file system are parameters.
pub mod Fetching
use Prim.Native.String
use unoq_ota.Prelude.{
  ℕ, zero, suc, ℤ, pos, String, ◌<>◌, Bool, true, false, not, ◌&&◌, ◌||◌, Option, none, some, List,
  [], ◌∷◌, ◌==◌, if◌then◌else◌, contains,
}
use unoq_ota.Outcome.{
  Outcome, ok, raised, Raised, other_error, os_error, state_error, message, ◌>>=◌, ◌>>◌,
}
use unoq_ota.Python.{Python, Value, null, bool, str, int, arr, obj, Fields, end, field}
use unoq_ota.Artifact.{Bytes}
use unoq_ota.State.{State, phase_value, text_or_null, items_of}
use unoq_ota.Sources.{Stream, download, download_s3}
use unoq_ota.Events
use unoq_ota.Events.{Journal, record_event}
use unoq_ota.Reconciler.{ReconcileResult}
use unoq_ota.Agent.World.{FileName}
use unoq_ota.Agent.Rollback.{image_name}
use unoq_ota.Cli.{Ending, returned, usage_error, escaped, text_of, is_missing}

-- What `_fetch` calls: `urlsplit`, the paths, and the files and servers behind them.
pub record Remote : Type 0 where
  pub scheme_of : String → Outcome String
  pub is_absolute : String → Bool
  pub join : String → String → String  -- `directory / path`
  pub read_file : String → Outcome Bytes
  pub write_file : Bytes → Outcome (Unit {0}) × Option Bytes  -- and what `dest` then holds
  pub made : Outcome (Unit {0})  -- the directory of `dest`
  pub response : String → Outcome Stream
  pub s3_object : String → Outcome (String × String)  -- `parse_s3_uri`
  pub s3_response : String × String → Outcome Stream
  pub opened : Outcome (Unit {0})
  pub removal : Raised → Outcome (Unit {0})
  pub write : Bytes → Bytes → Option (Raised × ℕ)

-- `url[n:]`
unfoldable pub text_after : ℕ → String → String
text_after zero s = s
text_after (suc n) String.[] = ""
text_after (suc n) (String.◌∷◌ c s) = text_after n s

module _ (remote : Remote) (max_bytes : ℕ) where
  abbrev pub path_in : Option String → String → String
  path_in none path = path
  path_in (some directory) path =
      if remote.is_absolute path then path else remote.join directory path

  abbrev pub store_bytes : Outcome Bytes → Option Bytes → Outcome (Unit {0}) × Option Bytes
  store_bytes (raised e) before = (raised e, before)
  store_bytes (ok b) before = remote.write_file b

  abbrev pub copy_file :
      Outcome (Unit {0}) → String → Option Bytes → Outcome (Unit {0}) × Option Bytes
  copy_file (raised e) path before = (raised e, before)
  copy_file (ok t) path before = store_bytes (remote.read_file path) before

  abbrev pub fetch_local :
      String → String → Option String → Option Bytes → Outcome (Unit {0}) × Option Bytes
  fetch_local scheme url source_dir before =
      copy_file remote.made
        (path_in source_dir (if scheme == "file" then text_after 7 url else url)) before

  abbrev pub is_remote : String → Bool
  is_remote scheme = scheme == "http" || scheme == "https" || scheme == "s3"

  abbrev pub fetch_scheme :
      Outcome String → String → Option String → Option Bytes → Outcome (Unit {0}) × Option Bytes
  fetch_scheme (raised e) url source_dir before = (raised e, before)
  fetch_scheme (ok scheme) url source_dir before =
      if scheme == "http" || scheme == "https"
      then download remote.write max_bytes remote.made (remote.response url) remote.opened
          remote.removal before
      else if scheme == "s3"
      then download_s3 remote.write max_bytes (remote.s3_object url) remote.made remote.s3_response
          remote.opened remote.removal before
      else if not (scheme == "") && not (scheme == "file")
      then (raised (other_error "unsupported URL scheme"), before)
      else fetch_local scheme url source_dir before

  -- `_fetch`, from what `dest` holds to what it then holds
  unfoldable pub fetch : String → Option String → Option Bytes → Outcome (Unit {0}) × Option Bytes
  unfolding text_after
  fetch url source_dir before = fetch_scheme (remote.scheme_of url) url source_dir before

-- What building gives: a value, a usage error of argparse, or an exception.
pub data Built (A : Type 0) : Type 0 where
  built : A → Built A
  misused : String → Built A
  failed : Raised → Built A

pub data SourceKind : Type 0 where
  local http s3 : SourceKind

pub record BuildArgs : Type 0 where
  pub gate : Option String
  pub source : SourceKind
  pub source_dir : Option String
  pub manifest_url : Option String

-- `getattr(args, "gate", None) or "always"`
abbrev pub gate_name : Option String → String
gate_name none = "always"
gate_name (some g) = if g == "" then "always" else g

abbrev pub is_gate : String → Bool
is_gate g = g == "always" || g == "cellular-signal"

module _ {A : Type 0} (is_usage : Raised → Bool) where
  abbrev pub built_or_failed : Outcome A → Built A
  built_or_failed (ok a) = built a
  built_or_failed (raised e) = failed e

  -- The S3 source's S3Error and ValueError are usage errors.
  abbrev pub built_or_misused : Outcome A → Built A
  built_or_misused (ok a) = built a
  built_or_misused (raised e) = if is_usage e then misused (message e) else failed e

  abbrev pub build_source : BuildArgs → SourceKind → Outcome A → Built A
  build_source args local made =
      if is_missing args.source_dir
      then misused "--source local requires --source-dir"
      else built_or_failed made
  build_source args s3 made =
      if is_missing args.manifest_url
      then misused "--source s3 requires --manifest-url (an s3:// URI)"
      else built_or_misused made
  build_source args http made =
      if is_missing args.manifest_url
      then misused "--source http requires --manifest-url"
      else built_or_failed made

  abbrev pub after_target : {T : Type 0} → Outcome T → BuildArgs → Outcome A → Built A
  after_target (raised e) args made = failed e
  after_target (ok t) args made = build_source args args.source made

  -- How `_build_agent` can fail: by the name of the gate, by the flash target, or by what the chosen source
  -- asks for. The keys, the closures that fetch and the constructor of the agent are not part of this.
  unfoldable pub checked_source : {T : Type 0} → BuildArgs → Outcome T → Outcome A → Built A
  checked_source args target made =
      if is_gate (gate_name args.gate)
      then after_target target args made
      else misused "invalid gate"

-- `_host_hooks`, on what running `systemctl` gives: nothing, or the exit code
module _ {W : Type 0} (restart : W → String → Outcome (Unit {0}))
    (is_active : W → String → Outcome ℤ) where
  abbrev pub is_success : ℤ → Bool
  is_success (pos zero) = true
  is_success n = false

  abbrev pub healthy : Outcome ℤ → Outcome Bool
  healthy (ok code) = ok (is_success code)
  healthy (raised (os_error m)) = ok false
  healthy (raised e) = raised e

  unfoldable pub host_hooks :
      Option String → Option (W → Outcome (Unit {0})) × Option (W → Outcome Bool)
  host_hooks none = (none, none)
  host_hooks (some unit) =
      if unit == ""
      then (none, none)
      else (some (λ w. restart w unit), some (λ w. healthy (is_active w unit)))

abbrev pub fields_or_null : Option Fields → Value
fields_or_null none = null
fields_or_null (some d) = obj d

-- The payload of `_print_status`.
unfoldable pub status_payload : String → State → Option Fields → Fields
status_payload device s last = field "device" (str device) (
    field "phase" (str (phase_value s.phase)) (
      field "version" (text_or_null s.version) (
        field "committed_version" (text_or_null s.committed_version) (
          field "previous_version" (text_or_null s.previous_version) (
            field "sequence" (int s.sequence) (
              field "poisoned" (arr (items_of s.poisoned))
                (field "last_event" (fields_or_null last) end)))))))

abbrev pub image_value : Option FileName → Value
image_value none = null
image_value (some n) = str (image_name n)

abbrev pub reconcile_fields : ReconcileResult → Fields
reconcile_fields r = field "kind" (str "reconcile") (
    field "action" (str r.action)
      (field "image" (image_value r.image) (field "healthy" (bool r.healthy) end)))

-- The `reconcile` command, given what finding the target and reconciling gives.
unfoldable pub reconcile_command : Events.Env → Outcome ReconcileResult → Journal → Ending × Journal
reconcile_command env (raised e) j = (escaped e, j)
reconcile_command env (ok r) j =
    (if r.healthy then returned 0 else returned 1, record_event env (reconcile_fields r) j)

-- `main` catches a `StateError` that a command lets escape.
unfoldable pub main : Ending → Ending
main (escaped (state_error m)) = returned 1
main e = e
