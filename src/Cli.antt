-- ===== src/Cli.antt =====
-- unoq_ota/cli.py and the parts of unoq_ota/jobs_runner.py that it composes: the commands, and what a
-- cycle of the agent means to a job. argparse, the SDK and the process's surroundings are parameters.
pub mod Jobs
pub mod Commands
use Prim.Native.String
use unoq_ota.Prelude.{
  ℕ, zero, suc, ◌-◌, ℤ, pos, String, ◌<>◌, Bool, true, false, not, ◌&&◌, ◌||◌, Option, none, some,
  List, [], ◌∷◌, ◌++◌, length, take, ◌==◌, if◌then◌else◌, contains,
}
use unoq_ota.Outcome.{
  Outcome, ok, raised, Raised, other_error, os_error, state_error, preflight_error, refuse_if,
  message, ◌>>=◌, ◌>>◌,
}
use unoq_ota.Python.{Python, Value, null, bool, str, int, arr, obj, Fields, end, field}
use unoq_ota.Artifact.{Bytes}
use unoq_ota.Interfaces.{Status}
use unoq_ota.State.{State, StateFile, Phase, phase_value, load, text_or_null, items_of}
use unoq_ota.Agent.World.{World, Env, Event, reported, FileName}
use unoq_ota.Agent.Fetch.{run_once}
use unoq_ota.Jobs.{CycleResult, Execution, Message, run_jobs_loop, or_else}
use unoq_ota.Sources.{Stream, status_value, download, download_s3}
use unoq_ota.Events
use unoq_ota.Events.{Journal, record_event}
use unoq_ota.Reconciler.{ReconcileResult}

-- The last report among calls, the newest of which comes first.
unfoldable pub last_report : List Event → Option (Status × String)
last_report [] = none
last_report (reported v status detail ∷ t) = some (status, detail)
last_report (e ∷ t) = last_report t

abbrev pub status_of : Option (Status × String) → Option String
status_of none = none
status_of (some (status, detail)) = some (status_value status)

abbrev pub detail_of : Option (Status × String) → Option String
detail_of none = some ""
detail_of (some (status, detail)) = some detail

abbrev pub cycle_result : Option (Status × String) → Outcome Phase → Outcome CycleResult
cycle_result last (raised e) = raised e
cycle_result last (ok phase) = ok (record {
  phase = some (phase_value phase);
  reported = status_of last;
  detail = detail_of last;
})

module _ {py : Python} (env : Env py) where
  -- `wrap_run_cycle`: the calls that the cycle adds to the trace are those before which `last` was reset.
  unfoldable pub run_cycle : World py → Outcome CycleResult × World py
  unfolding last_report run_once phase_value
  run_cycle w =
      let (r, w') = run_once env w in
      (cycle_result (last_report (take (length w'.trace - length w.trace) w'.trace)) r, w')

-- `args.no_flash = True`
abbrev pub verify_only : {py : Python} → Env py → Env py
verify_only env = record env { no_flash = true }

-- `default_mqtt_client_id` and `require_distinct_mqtt_client_id`
abbrev pub default_mqtt_client_id : String → String
default_mqtt_client_id thing_name = thing_name <> "-ota"

unfoldable pub require_distinct_mqtt_client_id : String → String → Outcome String
require_distinct_mqtt_client_id thing_name client_id =
    if client_id == thing_name
    then raised (other_error "mqtt client_id must not equal the thing name")
    else ok client_id

-- How a command ends: it returns its exit code, argparse ends the process, or an exception escapes.
pub data Ending : Type 0 where
  returned : ℕ → Ending
  usage_error : String → Ending
  escaped : Raised → Ending

pub record JobsArgs : Type 0 where
  pub iot_endpoint : Option String
  pub iot_cert : Option String
  pub iot_key : Option String
  pub iot_ca : Option String
  pub thing_name : Option String
  pub mqtt_client_id : Option String

abbrev pub is_missing : Option String → Bool
is_missing none = true
is_missing (some s) = s == ""

abbrev pub missing_if : Bool → String → List String
missing_if true name = name ∷ []
missing_if false name = []

unfoldable pub missing : JobsArgs → List String
missing args =
    missing_if (is_missing args.iot_endpoint) "--iot-endpoint (or UNOQ_OTA_IOT_ENDPOINT)"
    ++ (missing_if (is_missing args.iot_cert) "--iot-cert (or UNOQ_OTA_IOT_CERT)"
        ++ (missing_if (is_missing args.iot_key) "--iot-key (or UNOQ_OTA_IOT_KEY)"
            ++ (missing_if (is_missing args.iot_ca) "--iot-ca (or UNOQ_OTA_IOT_CA)"
                ++ missing_if (is_missing args.thing_name) "--thing-name (or UNOQ_OTA_IOT_THING)")))

abbrev pub text_of : Option String → String
text_of none = ""
text_of (some s) = s

unfoldable pub client_id_of : JobsArgs → Outcome String
unfolding require_distinct_mqtt_client_id
client_id_of args =
    let thing_name = text_of args.thing_name in
    require_distinct_mqtt_client_id thing_name
      (or_else (text_of args.mqtt_client_id) (default_mqtt_client_id thing_name))

-- `build_aws_jobs_client`, given what the clock's check, the DNS repair, the import and the connection give.
unfoldable pub build_client :
    Outcome (Unit {0})
    → Outcome (Unit {0})
    → Outcome (Unit {0})
    → Outcome (Unit {0})
    → String
    → String
    → Outcome (Unit {0})
unfolding require_distinct_mqtt_client_id
build_client clock dns imported connected thing_name client_id = do
  id ← require_distinct_mqtt_client_id thing_name client_id
  clock
  dns
  imported
  connected

module _ {py : Python} (is_zero : String → Bool) (can_start : Bool) where
  -- The loop, once the client is there: a `PreflightError` ends the command with code 1.
  abbrev pub serve :
      Env py
      → List (Option Execution)
      → Outcome (Unit {0})
      → World py
      → Ending × List Message × World py
  serve env executions (raised (preflight_error m)) w = (returned 1, [], w)
  serve env executions (raised e) w = (escaped e, [], w)
  serve env executions (ok t) w =
      let (sent, w') = run_jobs_loop is_zero (run_cycle env) can_start executions w in
      (returned 0, sent, w')

  abbrev pub connect :
      Outcome (Env py)
      → (String → Outcome (Unit {0}))
      → List (Option Execution)
      → Outcome String
      → World py
      → Ending × List Message × World py
  connect agent client executions (raised e) w = (usage_error (message e), [], w)
  connect (raised e) client executions (ok id) w = (escaped e, [], w)
  connect (ok env) client executions (ok id) w = serve (verify_only env) executions (client id) w

  abbrev pub unless_missing :
      List String → Ending × List Message × World py → World py → Ending × List Message × World py
  unless_missing [] rest w = rest
  unless_missing (m ∷ ms) rest w = (usage_error "jobs requires", [], w)

  -- `_jobs`, where `agent` is what `_build_agent` gives and `client` what `build_aws_jobs_client` does
  unfoldable pub jobs :
      JobsArgs
      → Outcome (Env py)
      → (String → Outcome (Unit {0}))
      → List (Option Execution)
      → World py
      → Ending × List Message × World py
  unfolding missing client_id_of run_cycle
  jobs args agent client executions w =
      unless_missing (missing args) (connect agent client executions (client_id_of args) w) w
