-- ===== src/Tests/Agent.antt =====
-- Runs of the agent, and what its theorems say of them.
use unoq_ota.Prelude.{◌≤ℤ◌, ◌≤◌, ◌≡◌, ◌⊎◌, refl, true, false, some, contains, arith}
use unoq_ota.Outcome.{ok}
use unoq_ota.State.{State, Phase, load, max_attempts, payload_of}
use unoq_ota.State.Roundtrip.{load-save}
use unoq_ota.Agent.World.{World}
use unoq_ota.Agent.Cycle.{◌>>=◌, swallow, perform}
use unoq_ota.Agent.Store.{attempts_in, record_attempt, poison}
use unoq_ota.Agent.Rollback.{is_healthy, rollback}
use unoq_ota.Agent.Install.{gate_stage, drift_stage, flash_stage, after_flash, health_stage, commit}
use unoq_ota.Agent.Fetch.{verify_stage, run_once, run_cycles}
use unoq_ota.Agent.Commit.{committed_files, commit-files}
use unoq_ota.Agent.Safety.Attempts.{installs, installs_capped}
use unoq_ota.Agent.Safety.Provenance.{AllDue, every_flash_due}
use unoq_ota.Agent.Safety.Replay.{sequences_never_fall}
use unoq_ota.Agent.Safety.Poison.{poisoned_forever}
use unoq_ota.Agent.Safety.DryRun.{flashes, no_flash_never_flashes}
use unoq_ota.Agent.Safety.Blame.{HadVerdict, verdict_before_blame}
use unoq_ota.Tests.Device.{
  python, python-IsLawful, device, unhealthy, committed_state, poisoned_state, running, image,
  update,
}

run_commits : (run_once (device false) (running committed_state)).0 ≡ ok Phase.committed
unfolding run_once ◌>>=◌ swallow load payload_of perform verify_stage gate_stage drift_stage
    flash_stage after_flash health_stage is_healthy commit record_attempt
run_commits = refl

run_rejects : (run_once unhealthy (running committed_state)).0 ≡ ok Phase.rejected
unfolding run_once ◌>>=◌ swallow load payload_of perform verify_stage gate_stage drift_stage
    flash_stage after_flash health_stage is_healthy rollback poison record_attempt
run_rejects = refl

run_poisoned : (run_once (device false) (running poisoned_state)).0 ≡ ok Phase.rejected
unfolding run_once ◌>>=◌ swallow load payload_of
run_poisoned = refl

installs_capped_example :
    installs "2.0" (run_cycles unhealthy 3 (running committed_state)).trace ≤ max_attempts
installs_capped_example =
    installs_capped python-IsLawful unhealthy (λ w s. refl) "2.0" 3 (running committed_state)
      committed_state (load-save python python-IsLawful committed_state) (omega arith) (omega arith)
      refl

every_flash_due_example : AllDue (run_cycles unhealthy 2 (running committed_state)).trace
every_flash_due_example =
    every_flash_due python-IsLawful unhealthy 2 (running committed_state) committed_state
      (load-save python python-IsLawful committed_state) refl

sequences_never_fall_example :
    (s' : State) × (load python (run_cycles (device false) 2 (running committed_state)).state_file
      ≡ ok s')
    × (committed_state.sequence ≤ℤ s'.sequence)
    × (committed_state.last_verified_sequence ≤ℤ s'.last_verified_sequence)
sequences_never_fall_example =
    sequences_never_fall python-IsLawful (device false) 2 (running committed_state) committed_state
      (load-save python python-IsLawful committed_state)

poisoned_forever_example :
    (s' : State) × (load python (run_cycles (device false) 2 (running poisoned_state)).state_file
      ≡ ok s')
    × (contains s'.poisoned "2.0" ≡ true)
    × (installs "2.0" (run_cycles (device false) 2 (running poisoned_state)).trace
        ≡ installs "2.0" (running poisoned_state).trace)
poisoned_forever_example =
    poisoned_forever python-IsLawful (device false) "2.0" 2 (running poisoned_state) poisoned_state
      (load-save python python-IsLawful poisoned_state) refl

no_flash_never_flashes_example :
    (s' : State) × (load python (run_cycles (device true) 2 (running committed_state)).state_file
      ≡ ok s')
    × (flashes (run_cycles (device true) 2 (running committed_state)).trace
        ≡ flashes (running committed_state).trace)
    × (s'.sequence ≡ committed_state.sequence)
    × (s'.committed_version ≡ committed_state.committed_version)
no_flash_never_flashes_example =
    no_flash_never_flashes python-IsLawful (device true) 2 (running committed_state) committed_state
      refl (load-save python python-IsLawful committed_state)

verdict_before_blame_example :
    (s' : State) × (load python (run_cycles unhealthy 1 (running committed_state)).state_file
      ≡ ok s')
    × (((contains s'.poisoned "2.0" ≡ false)
          × (attempts_in s' "2.0" ≡ attempts_in committed_state "2.0"))
        ⊎ HadVerdict "2.0" (run_cycles unhealthy 1 (running committed_state)).trace)
verdict_before_blame_example =
    verdict_before_blame python-IsLawful unhealthy "2.0" 1 (running committed_state) committed_state
      (load-save python python-IsLawful committed_state) refl refl

-- A device about to commit: the image is staged.
abbrev healthy : World python
healthy = record (running committed_state) {
  files = record (running committed_state).files { staged_bin = some image };
}

commit_returns : (commit (device false) update healthy).0 ≡ ok Phase.committed
unfolding commit ◌>>=◌ perform load payload_of swallow
commit_returns = refl

commit-files_example :
    (commit (device false) update healthy).1.files ≡ committed_files healthy.files
commit-files_example = commit-files (device false) update healthy commit_returns
