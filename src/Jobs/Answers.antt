-- ===== src/Jobs/Answers.antt =====
-- The messages of `run_jobs_loop` (unoq_ota/jobs_runner.py), against the jobs that it was given.
use unoq_ota.Prelude.{
  ◌≡◌, refl, ap, ◌∙◌, String, Bool, true, false, Option, none, some, List, [], ◌∷◌, ◌++◌,
  if◌then◌else◌, arith, Option-cases, inl, inr,
}
use unoq_ota.Outcome.{Outcome, ok, raised}
use unoq_ota.Python.{Value}
use unoq_ota.Jobs.{
  CycleResult, JobStatus, in_progress, succeeded, failed, Execution, Job, Message, claimed, updated,
  adapt_execution, status_from_cycle, after_cycle, parse_job_operation, after_parse,
  handle_execution, run_job, run_jobs, run_jobs_loop,
}

-- The jobs that were reported as succeeded or failed, in order, once for each report.
abbrev pub answered : List Message → List String
answered [] = []
answered (claimed ∷ l) = answered l
answered (updated id in_progress d ∷ l) = answered l
answered (updated id succeeded d ∷ l) = id ∷ answered l
answered (updated id failed d ∷ l) = id ∷ answered l

-- The jobs that the loop is given before it ends, in order.
abbrev pub served : List (Option Execution) → List String
served [] = []
served (x ∷ xs) = elim (adapt_execution x) [ none ↦ [] | some j ↦ j.id ∷ served xs ]

abbrev is_final : JobStatus → Bool
is_final in_progress = false
is_final succeeded = true
is_final failed = true

status_from_cycle-is_final : (r : CycleResult) → is_final (status_from_cycle r).0 ≡ true
unfolding status_from_cycle
status_from_cycle-is_final r = ground arith

after_cycle-is_final : (o : Outcome CycleResult) → is_final (after_cycle o).0 ≡ true
unfolding after_cycle
after_cycle-is_final (ok r) = status_from_cycle-is_final r
after_cycle-is_final (raised e) = refl

answered-append : (l m : List Message) → answered (l ++ m) ≡ answered l ++ answered m
answered-append [] m = refl
answered-append (claimed ∷ l) m = answered-append l m
answered-append (updated id in_progress d ∷ l) m = answered-append l m
answered-append (updated id succeeded d ∷ l) m = ap (λ k. id ∷ k) (answered-append l m)
answered-append (updated id failed d ∷ l) m = ap (λ k. id ∷ k) (answered-append l m)

answered_final :
    (id d : String) (s : JobStatus) (l : List Message)
    → is_final s ≡ true
    → answered (updated id s d ∷ l) ≡ id ∷ answered l
answered_final id d in_progress l h = absurd (cc h)
answered_final id d succeeded l h = refl
answered_final id d failed l h = refl

module _ {S : Type 0} (is_zero : String → Bool) (run_cycle : S → Outcome CycleResult × S) where
  after_parse-is_final :
      (o : Outcome String) (s : S) → is_final (after_parse is_zero run_cycle o s).0.0 ≡ true
  after_parse-is_final (ok op) s = after_cycle-is_final (run_cycle s).0
  after_parse-is_final (raised e) s = refl

  handle_execution-is_final :
      (v : Value) (s : S) → is_final (handle_execution is_zero run_cycle v s).0.0 ≡ true
  unfolding handle_execution
  handle_execution-is_final v s = after_parse-is_final (parse_job_operation is_zero v) s

  answered-start : (b : Bool) → answered (if b then claimed ∷ [] else []) ≡ []
  answered-start true = refl
  answered-start false = refl

  answered-run_job :
      (b : Bool) (j : Job) (s : S) → answered (run_job is_zero run_cycle b j s).0 ≡ j.id ∷ []
  unfolding run_job
  answered-run_job b j s =
      let ((status, detail), s') = handle_execution is_zero run_cycle j.contents s in
      answered_final j.id detail status (if b then claimed ∷ [] else [])
        (handle_execution-is_final j.contents s)
      ∙ ap (λ k. j.id ∷ k) (answered-start b)

  answered-run_jobs :
      (b : Bool) (xs : List (Option Execution)) (s : S)
      → answered (run_jobs is_zero run_cycle b xs s).0 ≡ served xs
  unfolding run_jobs
  answered-run_jobs b [] s = refl
  answered-run_jobs b (x ∷ xs) s = elim (Option-cases (adapt_execution x)) [
    | inl e ↦ rw (run_jobs, served, e) refl
    | inr (j, e) ↦
        let (sent, s') = run_job is_zero run_cycle b j s in
        rw
          (
            run_jobs,
            served,
            e,
            answered-append sent (run_jobs is_zero run_cycle b xs s').0,
            answered-run_job b j s,
          )
          (ap (λ k. j.id ∷ k) (answered-run_jobs b xs s'))
  ]

  -- Whatever the documents hold and whatever the cycles return or raise, the loop reports an outcome
  -- exactly once for each job that it is given before it ends, in their order.
  pub run_jobs_loop-answers :
      (can_start : Bool) (xs : List (Option Execution)) (s : S)
      → answered (run_jobs_loop is_zero run_cycle can_start xs s).0 ≡ served xs
  unfolding run_jobs_loop
  run_jobs_loop-answers can_start xs s =
      answered-append (if can_start then claimed ∷ [] else [])
        (run_jobs is_zero run_cycle can_start xs s).0
      ∙ ap (λ k. k ++ answered (run_jobs is_zero run_cycle can_start xs s).0)
          (answered-start can_start)
      ∙ answered-run_jobs can_start xs s
