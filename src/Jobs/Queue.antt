-- ===== src/Jobs/Queue.antt =====
-- The queue of offered jobs: `AwsJobsClient._offer` of unoq_ota/jobs_runner.py.
use unoq_ota.Prelude.{
  ℕ, ◌+◌, ◌≡◌, refl, String, Bool, false, Option, none, some, List, [], ◌∷◌, ◌==◌, ◌||◌,
  if◌then◌else◌, contains, inl, inr, Option-cases, arith, eq_iff,
}
use unoq_ota.Jobs.{Execution, Job, Offers, adapt_execution, offer, offer_job, offer_all}

-- How often the job stands in the queue.
abbrev pub queued : List Job → String → ℕ
queued [] id = 0
queued (j ∷ l) id = (if j.id == id then 1 else 0) + queued l id

-- Whether one of the executions is a job with this id.
abbrev pub was_offered : List (Option Execution) → String → Bool
was_offered [] id = false
was_offered (x ∷ xs) id =
    let rest = was_offered xs id in
    elim (adapt_execution x) [ none ↦ rest | some j ↦ j.id == id || rest ]

abbrev pub nothing_offered : Offers
nothing_offered = record { offered = []; pending = [] }

abbrev IsTracked : String → Offers → Type 0
IsTracked id q = queued q.pending id ≡ (if contains q.offered id then 1 else 0)

IsTracked-offer_job :
    (id : String) (o : Option Job) (q : Offers) → IsTracked id q → IsTracked id (offer_job o q)
IsTracked-offer_job id none q h = h
IsTracked-offer_job id (some j) q h = grind (arith, eq_iff j.id id)

contains-offer_job :
    (id : String) (j : Job) (q : Offers)
    → contains (offer_job (some j) q).offered id ≡ (contains q.offered id || j.id == id)
contains-offer_job id j q = grind (arith, eq_iff j.id id)

queued-offers :
    (id : String) (xs : List (Option Execution)) (q : Offers)
    → IsTracked id q
    → queued (offer_all xs q).pending id
      ≡ (if contains q.offered id || was_offered xs id then 1 else 0)
unfolding offer_all offer
queued-offers id [] q h = ground (arith, h)
queued-offers id (x ∷ xs) q h = elim (Option-cases (adapt_execution x)) [
  | inl e ↦ rw (offer_all, offer, was_offered, e) (queued-offers id xs q h)
  | inr (j, e) ↦
      rw (offer_all, offer, was_offered, e)
        (ground (
          arith,
          contains-offer_job id j q,
          queued-offers id xs (offer_job (some j) q) (IsTracked-offer_job id (some j) q h),
        ))
]

-- After any sequence of offers, a job stands in the queue once if it was among them, and otherwise not
-- at all.
pub queued-offer_all :
    (id : String) (xs : List (Option Execution))
    → queued (offer_all xs nothing_offered).pending id ≡ (if was_offered xs id then 1 else 0)
queued-offer_all id xs = queued-offers id xs nothing_offered refl
