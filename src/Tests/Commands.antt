-- ===== src/Tests/Commands.antt =====
-- Commands at concrete inputs: a job on a device that is offered an update, and a reconciliation.
use unoq_ota.Prelude.{◌≡◌, refl, true, false, none, some, [], ◌∷◌}
use unoq_ota.Outcome.{ok, raised, preflight_error, state_error}
use unoq_ota.State.Roundtrip.{load-save}
use unoq_ota.Agent.Safety.DryRun.{flashes}
use unoq_ota.Jobs.{Execution}
use unoq_ota.Cli.{JobsArgs, returned, escaped, client_id_of, jobs}
use unoq_ota.Cli.Jobs.{IsUntouched, jobs-IsUntouched}
use unoq_ota.Cli.Commands.{main, text_after}
use unoq_ota.Tests.Device.{python, python-IsLawful, device, committed_state, running}

abbrev args : JobsArgs
args = record {
  iot_endpoint = some "endpoint";
  iot_cert = some "cert";
  iot_key = some "key";
  iot_ca = some "ca";
  thing_name = some "board-1";
  mqtt_client_id = none;
}

abbrev poke : Execution
poke = record { job_id = some "job-1"; document = none; job_document = none }

own_client_id : client_id_of args ≡ ok "board-1-ota"
unfolding client_id_of
own_client_id = refl

no_clock :
    (jobs
      (λ s. false)
      true
      args
      (ok (device false))
      (λ id. raised (preflight_error "clock"))
      []
      (running committed_state)).0
    ≡ returned 1
unfolding jobs
no_clock = refl

state_error_caught : main (escaped (state_error "permission denied")) ≡ returned 1
unfolding main
state_error_caught = refl

path_of_url : text_after 7 "file:///srv/a.bin" ≡ "/srv/a.bin"
unfolding text_after
path_of_url = refl

jobs-IsUntouched_example :
    IsUntouched
      (flashes (running committed_state).trace)
      committed_state.sequence
      committed_state.committed_version
      (jobs
        (λ s. false)
        true
        args
        (ok (device false))
        (λ id. ok tt)
        (some poke ∷ some poke ∷ none ∷ [])
        (running committed_state)).2
jobs-IsUntouched_example =
    jobs-IsUntouched python-IsLawful (λ s. false) true args (ok (device false)) (λ id. ok tt)
      (some poke ∷ some poke ∷ none ∷ []) (running committed_state) committed_state
      (load-save python python-IsLawful committed_state)
