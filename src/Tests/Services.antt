-- ===== src/Tests/Services.antt =====
-- Boot recovery, jobs, health verdicts and the host's tree at concrete inputs.
use unoq_ota.Prelude.{
  ℕ, ◌≡◌, ◌↔◌, ◌⊎◌, refl, String, Bool, true, false, Option, none, some, List, [], ◌∷◌,
  if◌then◌else◌,
}
use unoq_ota.Outcome.{Outcome, ok, raised, flash_error, host_error}
use unoq_ota.Python.{Value, null, str, obj, end, field}
use unoq_ota.Agent.World.{FileName, golden}
use unoq_ota.Tests.Device.{sketch}
use unoq_ota.Reconciler.{
  Board, Step, Steps, probed, said_alive, untouched, reflashed, exhausted, candidates, reconcile,
}
use unoq_ota.Reconciler.Recovery.{Revived, AllTried, reconcile-recovers}
use unoq_ota.Jobs.{CycleResult, succeeded, Execution, status_from_cycle, run_jobs_loop, offer_all}
use unoq_ota.Jobs.Outcomes.{WasSuccess, status_from_cycle-succeeds}
use unoq_ota.Jobs.Answers.{answered, served, run_jobs_loop-answers}
use unoq_ota.Jobs.Queue.{queued, was_offered, nothing_offered, queued-offer_all}
use unoq_ota.Health.{Report, wait_healthy, wait_alive}
use unoq_ota.Health.Verdicts.{IsHealthy, wait_healthy-accepts}
use unoq_ota.Host.{Member, Dirs, archive, apply_host_tree, validate_members}
use unoq_ota.Host.Undo.{applied, rolled_back, IsRestored, rollback_host_tree-refused}

-- Nothing is alive until the golden image is flashed; the others fail to flash.
abbrev alive_after : Steps → Outcome (Option String)
alive_after (Step.flashed golden (ok done) ∷ t) = ok (some "1.0")
alive_after t = ok none

abbrev flash_at : Steps → Outcome (Unit {0})
flash_at (Step.loaded golden a ∷ t) = ok tt
flash_at t = raised (flash_error "timed out")

abbrev bricked : Board
bricked = record {
  wait_alive = alive_after;
  is_file = λ t n. ok true;
  load = λ t n. ok sketch;
  flash = λ t a. flash_at t;
}

golden_revives : (reconcile bricked []).0 ≡ ok (reflashed golden)
unfolding reconcile
golden_revives = refl

reconcile-recovers_example :
    (t' : Steps) × (((reconcile bricked [] ≡ (ok untouched, t'))
        × (t' ≡ probed (bricked.wait_alive []) ∷ [])
        × (said_alive (bricked.wait_alive []) ≡ true))
      ⊎ (((n : FileName) × (reconcile bricked [] ≡ (ok (reflashed n), t')) × Revived n t')
          ⊎ ((reconcile bricked [] ≡ (ok exhausted, t')) × AllTried candidates t')))
reconcile-recovers_example = reconcile-recovers bricked (λ t n e h. absurd (cc h)) []

abbrev deferred : CycleResult
deferred = record {
  phase = some "idle";
  reported = some "waiting_for_gate";
  detail = some "weak signal";
}

status_from_cycle-succeeds_example :
    ((status_from_cycle deferred).0 ≡ succeeded) ↔ WasSuccess deferred
status_from_cycle-succeeds_example = status_from_cycle-succeeds deferred

abbrev job : String → Value → Option Execution
job id v = some (record { job_id = some id; document = none; job_document = some v })

abbrev jobs : List (Option Execution)
jobs =
    job "a" (obj (field "operation" (str "check") end))
    ∷ job "b" (obj (field "operation" (str "reboot") end))
    ∷ job "a" null
    ∷ []

abbrev is_zero_text : String → Bool
is_zero_text s = false

-- A cycle that counts how often it ran.
abbrev counting : ℕ → Outcome CycleResult × ℕ
counting n = (ok deferred, ℕ.suc n)

run_jobs_loop-answers_example :
    answered (run_jobs_loop is_zero_text counting true jobs 0).0 ≡ served jobs
run_jobs_loop-answers_example = run_jobs_loop-answers is_zero_text counting true jobs 0

queued-offer_all_example :
    queued (offer_all jobs nothing_offered).pending "a" ≡ (if was_offered jobs "a" then 1 else 0)
queued-offer_all_example = queued-offer_all "a" jobs

abbrev heard : List Report
heard = ("2.0", 4) ∷ ("1.0", 9) ∷ ("2.0", 5) ∷ []

wait_healthy-accepts_example :
    (wait_healthy 2 (some "2.0") heard ≡ ok true) ↔ IsHealthy 2 (some "2.0") heard
wait_healthy-accepts_example = wait_healthy-accepts 2 (some "2.0") heard

-- A restart within the window is not progress.
restart_seen : wait_healthy 2 (some "2.0") (("2.0", 5) ∷ ("2.0", 1) ∷ ("2.0", 8) ∷ []) ≡ ok false
unfolding wait_healthy
restart_seen = refl

one_alive : wait_alive 2 heard ≡ ok (some "2.0")
unfolding wait_alive
one_alive = refl

abbrev members : List Member
members = record { name = "parser.py"; is_link = false } ∷ []

abbrev stays_within : String → Bool
stays_within s = true

abbrev installed_dirs : Dirs String
installed_dirs = record {
  live_dir = some "1.0";
  next_dir = none;
  prev_dir = some "0.9";
  failed_dir = some "0.8";
}

abbrev bad_members : List Member
bad_members = record { name = "/etc/passwd"; is_link = false } ∷ []

absolute_refused :
    (apply_host_tree stays_within "" installed_dirs (archive bad_members (ok "2.0"))).0
    ≡ raised (host_error "host payload member has an absolute path")
unfolding apply_host_tree validate_members
absolute_refused = refl

rollback_host_tree-refused_example :
    (d1 : Dirs String) × (applied stays_within "" installed_dirs (archive bad_members (ok "2.0"))
      ≡ ok d1)
    × (d1.live_dir ≡ some "1.0")
    × ((d2 : Dirs String) × (rolled_back d1 ≡ ok d2) × IsRestored "0.9" d2)
rollback_host_tree-refused_example =
    rollback_host_tree-refused stays_within "" "0.9" installed_dirs (archive bad_members (ok "2.0"))
      (host_error "host payload member has an absolute path") absolute_refused refl
