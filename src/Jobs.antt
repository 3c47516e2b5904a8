-- ===== src/Jobs.antt =====
-- unoq_ota/jobs_doc.py and the parts of unoq_ota/jobs_runner.py that do not talk to the SDK: the
-- document of a job, its outcome, the loop over claimed jobs, and the queue that feeds the loop.
pub mod Outcomes
pub mod Answers
pub mod Queue
use unoq_ota.Prelude.{
  ℕ, ℤ, pos, String, ◌<>◌, Bool, true, false, not, ◌&&◌, ◌||◌, Option, none, some, List, [], ◌∷◌,
  ◌++◌, ◌==◌, eqb, if◌then◌else◌, contains,
}
use unoq_ota.Outcome.{Outcome, ok, raised, Raised, other_error, refuse_if, message, ◌>>=◌, ◌>>◌}
use unoq_ota.Python.{Value, null, bool, int, float, str, arr, obj, nil, end, Fields, find_field}

abbrev pub is_check : Option Value → Bool
is_check none = true
is_check (some (str s)) = s == "check"
is_check (some v) = false

-- `not document`; `is_zero` reads the literal of a float.
abbrev pub is_falsy : (String → Bool) → Value → Bool
is_falsy is_zero null = true
is_falsy is_zero (bool b) = not b
is_falsy is_zero (int (pos ℕ.zero)) = true
is_falsy is_zero (float f) = is_zero f
is_falsy is_zero (str s) = s == ""
is_falsy is_zero (arr nil) = true
is_falsy is_zero (obj end) = true
is_falsy is_zero _ = false

abbrev check_operation : Value → Outcome String
check_operation (obj d) = do
  refuse_if (not (is_check (find_field "operation" d))) (other_error "unsupported operation")
  ok "check"
check_operation _ = raised (other_error "job document must be a JSON object")

-- `parse_job_operation`: a `JobDocumentError` is an `other_error`.
unfoldable pub parse_job_operation : (String → Bool) → Value → Outcome String
parse_job_operation is_zero document =
    if is_falsy is_zero document then ok "check" else check_operation document

pub data JobStatus : Type 0 where
  in_progress succeeded failed : JobStatus

-- What `wrap_run_cycle` gives: the value of the phase, and the last status and detail reported.
pub record CycleResult : Type 0 where
  pub phase : Option String
  pub reported : Option String
  pub detail : Option String

abbrev pub or_empty : Option String → String
or_empty none = ""
or_empty (some s) = s

-- `s or other`
abbrev pub or_else : String → String → String
or_else s other = if s == "" then other else s

abbrev pub is_text : String → Option String → Bool
is_text s none = false
is_text s (some t) = t == s

-- `str(phase)`
abbrev str_of : Option String → String
str_of none = "None"
str_of (some s) = s

abbrev pub is_blank : Option String → Bool
is_blank none = true
is_blank (some s) = s == ""

abbrev pub is_idle : Option String → Bool
is_idle none = true
is_idle (some s) = s == "idle"

unfoldable pub status_from_cycle : CycleResult → JobStatus × String
status_from_cycle r =
    let extra = or_empty r.detail in
    if is_text "rejected" r.phase || is_text "rejected" r.reported
    then (failed, or_else extra (or_empty r.phase))
    else if is_text "waiting_for_gate" r.reported
    then (failed, or_else extra "waiting_for_gate")
    else if is_text "verified" r.reported
    then (succeeded, or_else extra "verified, not applied")
    else if is_text "committed" r.reported
    then (succeeded, or_else extra (str_of r.phase))
    else if is_blank r.reported && is_idle r.phase
    then (succeeded, or_else extra "up to date")
    else (failed, or_else extra (or_empty r.phase))

unfoldable pub after_cycle : Outcome CycleResult → JobStatus × String
unfolding status_from_cycle
after_cycle (ok r) = status_from_cycle r
after_cycle (raised e) = (failed, message e)

-- The SDK's executions carry `job_document`, the protocol's `document`.
pub record Execution : Type 0 where
  pub job_id : Option String
  pub document : Option Value
  pub job_document : Option Value

pub record Job : Type 0 where
  pub id : String
  pub contents : Value

abbrev document_of : Execution → Value
document_of x = elim x.document [
  | some d ↦ d
  | none ↦ elim x.job_document [ some d ↦ d | none ↦ null ]
]

-- `adapt_execution`, less the execution number that nothing reads
unfoldable pub adapt_execution : Option Execution → Option Job
adapt_execution none = none
adapt_execution (some x) = elim x.job_id [
  | none ↦ none
  | some id ↦ if id == "" then none else some (record { id = id; contents = document_of x })
]

-- What the loop sends to the control plane.
pub data Message : Type 0 where
  claimed : Message
  updated : String → JobStatus → String → Message

-- The cycle acts on a device of type `S`. `can_start` is whether the client has a `start_next`.
module _ {S : Type 0} (is_zero : String → Bool) (run_cycle : S → Outcome CycleResult × S) where
  abbrev pub after_parse : Outcome String → S → (JobStatus × String) × S
  after_parse (raised e) s = ((failed, message e), s)
  after_parse (ok op) s = let (r, s') = run_cycle s in (after_cycle r, s')

  unfoldable pub handle_execution : Value → S → (JobStatus × String) × S
  unfolding after_cycle parse_job_operation
  handle_execution document s = after_parse (parse_job_operation is_zero document) s

  module _ (can_start : Bool) where
    abbrev start_next : List Message
    start_next = if can_start then claimed ∷ [] else []

    -- One round of the loop: the messages sent, the oldest first.
    unfoldable pub run_job : Job → S → List Message × S
    unfolding handle_execution
    run_job j s =
        let ((status, detail), s') = handle_execution j.contents s in
        (updated j.id in_progress "running check" ∷ updated j.id status detail ∷ start_next, s')

    -- The loop over what `next_execution` returns in turn. It ends where that is no execution.
    unfoldable pub run_jobs : List (Option Execution) → S → List Message × S
    unfolding run_job adapt_execution
    run_jobs [] s = ([], s)
    run_jobs (x ∷ xs) s = elim (adapt_execution x) [
      | none ↦ ([], s)
      | some j ↦
          let (sent, s') = run_job j s in let (rest, s'') = run_jobs xs s' in (sent ++ rest, s'')
    ]

    unfoldable pub run_jobs_loop : List (Option Execution) → S → List Message × S
    unfolding run_jobs
    run_jobs_loop xs s = let (sent, s') = run_jobs xs s in (start_next ++ sent, s')

-- The ids ever offered and the jobs put in the queue, the newest first.
pub record Offers : Type 0 where
  pub offered : List String
  pub pending : List Job

abbrev pub offer_job : Option Job → Offers → Offers
offer_job none q = q
offer_job (some j) q =
    if contains q.offered j.id
    then q
    else record { offered = j.id ∷ q.offered; pending = j ∷ q.pending }

-- `_offer`, as `_on_start_next` calls it
unfoldable pub offer : Option Execution → Offers → Offers
unfolding adapt_execution
offer x q = offer_job (adapt_execution x) q

unfoldable pub offer_all : List (Option Execution) → Offers → Offers
unfolding offer
offer_all [] q = q
offer_all (x ∷ xs) q = offer_all xs (offer x q)
