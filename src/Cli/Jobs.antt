-- ===== src/Cli/Jobs.antt =====
-- What the `jobs` command (unoq_ota/cli.py, unoq_ota/jobs_runner.py) does to the device.
use unoq_ota.Prelude.{
  ℕ, ℤ, ◌≡◌, refl, ◌∙◌, String, Bool, Option, List, [], ◌∷◌, Option-cases, inl, inr,
}
use unoq_ota.Outcome.{Outcome, ok, raised, preflight_error}
use unoq_ota.Python.{Python, IsLawful}
use unoq_ota.State.{State, load}
use unoq_ota.Jobs.{
  Execution, Job, Message, adapt_execution, parse_job_operation, after_parse, handle_execution,
  run_job, run_jobs, run_jobs_loop,
}
use unoq_ota.Agent.World.{World, Env}
use unoq_ota.Agent.Fetch.{run_cycles}
use unoq_ota.Agent.Safety.DryRun.{flashes, no_flash_never_flashes}
use unoq_ota.Cli.{
  Ending, JobsArgs, run_cycle, verify_only, missing, client_id_of, serve, connect, unless_missing,
  jobs,
}

-- The MCU has been written as often, and a readable state has the sequence and the committed version.
pub record IsUntouched {py : Python} (k : ℕ) (sequence : ℤ) (committed : Option String)
    (w : World py) : Type 0 where
  pub state : State
  pub loads : load py w.state_file ≡ ok state
  pub flashed : flashes w.trace ≡ k
  pub same_sequence : state.sequence ≡ sequence
  pub same_version : state.committed_version ≡ committed

module _ {py : Python} (law : IsLawful py) (is_zero : String → Bool) (k : ℕ) (sequence : ℤ)
    (committed : Option String) where
  run_cycle-IsUntouched :
      (env : Env py) (w : World py)
      → IsUntouched k sequence committed w
      → IsUntouched k sequence committed (run_cycle (verify_only env) w).1
  unfolding run_cycle run_cycles
  run_cycle-IsUntouched env w h =
      let (s, loads, flashed, same, version) =
        no_flash_never_flashes law (verify_only env) 1 w h.state refl h.loads in
      record {
        state = s;
        loads = loads;
        flashed = flashed ∙ h.flashed;
        same_sequence = same ∙ h.same_sequence;
        same_version = version ∙ h.same_version;
      }

  after_parse-IsUntouched :
      (env : Env py) (o : Outcome String) (w : World py)
      → IsUntouched k sequence committed w
      → IsUntouched k sequence committed (after_parse is_zero (run_cycle (verify_only env)) o w).1
  after_parse-IsUntouched env (ok op) w h = run_cycle-IsUntouched env w h
  after_parse-IsUntouched env (raised e) w h = h

  run_job-IsUntouched :
      (env : Env py) (can_start : Bool) (j : Job) (w : World py)
      → IsUntouched k sequence committed w
      → IsUntouched k sequence committed
          (run_job is_zero (run_cycle (verify_only env)) can_start j w).1
  unfolding run_job handle_execution
  run_job-IsUntouched env can_start j w h =
      after_parse-IsUntouched env (parse_job_operation is_zero j.contents) w h

  run_jobs-IsUntouched :
      (env : Env py) (can_start : Bool) (xs : List (Option Execution)) (w : World py)
      → IsUntouched k sequence committed w
      → IsUntouched k sequence committed
          (run_jobs is_zero (run_cycle (verify_only env)) can_start xs w).1
  unfolding run_jobs
  run_jobs-IsUntouched env can_start [] w h = h
  run_jobs-IsUntouched env can_start (x ∷ xs) w h = elim (Option-cases (adapt_execution x)) [
    | inl e ↦ rw (run_jobs, e) h
    | inr (j, e) ↦
        let w' = (run_job is_zero (run_cycle (verify_only env)) can_start j w).1 in
        rw (run_jobs, e)
          (run_jobs-IsUntouched env can_start xs w' (run_job-IsUntouched env can_start j w h))
  ]

  serve-IsUntouched :
      (env : Env py) (can_start : Bool) (xs : List (Option Execution)) (client : Outcome (Unit {0}))
      (w : World py)
      → IsUntouched k sequence committed w
      → IsUntouched k sequence committed (serve is_zero can_start (verify_only env) xs client w).2
  unfolding run_jobs_loop
  serve-IsUntouched env can_start xs (ok t) w h = run_jobs-IsUntouched env can_start xs w h
  serve-IsUntouched env can_start xs (raised (preflight_error m)) w h = h
  serve-IsUntouched env can_start xs (raised e) w h = h

  connect-IsUntouched :
      (can_start : Bool) (agent : Outcome (Env py)) (client : String → Outcome (Unit {0}))
      (xs : List (Option Execution)) (id : Outcome String) (w : World py)
      → IsUntouched k sequence committed w
      → IsUntouched k sequence committed (connect is_zero can_start agent client xs id w).2
  connect-IsUntouched can_start agent client xs (raised e) w h = h
  connect-IsUntouched can_start (raised e) client xs (ok id) w h = h
  connect-IsUntouched can_start (ok e) client xs (ok id) w h =
      serve-IsUntouched e can_start xs (client id) w h

  unless_missing-IsUntouched :
      (can_start : Bool) (ms : List String) (z : Ending × List Message × World py) (w : World py)
      → IsUntouched k sequence committed z.2
      → IsUntouched k sequence committed w
      → IsUntouched k sequence committed (unless_missing is_zero can_start ms z w).2
  unless_missing-IsUntouched can_start [] z w hz h = hz
  unless_missing-IsUntouched can_start (m ∷ ms) z w hz h = h

-- However the command's agent is built, whatever jobs the control plane sends, and whatever the
-- collaborators answer or raise: from a readable state, the `jobs` command does not write the MCU, and
-- it leaves the state readable with its `sequence` and its `committed_version`.
pub jobs-IsUntouched :
    {py : Python} (law : IsLawful py) (is_zero : String → Bool) (can_start : Bool) (args : JobsArgs)
    (agent : Outcome (Env py)) (client : String → Outcome (Unit {0}))
    (executions : List (Option Execution)) (w : World py) (s : State)
    → load py w.state_file ≡ ok s
    → IsUntouched
        (flashes w.trace)
        s.sequence
        s.committed_version
        (jobs is_zero can_start args agent client executions w).2
unfolding jobs
jobs-IsUntouched law is_zero can_start args agent client executions w s readable =
    let start : IsUntouched (flashes w.trace) s.sequence s.committed_version w = record {
      state = s;
      loads = readable;
      flashed = refl;
      same_sequence = refl;
      same_version = refl;
    } in
    unless_missing-IsUntouched law is_zero (flashes w.trace) s.sequence s.committed_version
      can_start (missing args)
      (connect is_zero can_start agent client executions (client_id_of args) w) w
      (connect-IsUntouched law is_zero (flashes w.trace) s.sequence s.committed_version can_start
        agent client executions (client_id_of args) w start)
      start
