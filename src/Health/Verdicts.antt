-- ===== src/Health/Verdicts.antt =====
-- What counts as healthy.
use mathlib.Core.Path.{subst}
use unoq_ota.Prelude.{
  ℕ, suc, ◌≤◌, ◌<◌, ◌≡◌, ◌↔◌, refl, String, true, false, Option, none, some, ◌≢◌, inl, inr, ap,
  Bool-cases, ◌==◌, eq_iff, eq_refl, List, [], ◌∷◌, ltb, length, if◌then◌else◌, arith,
}
use unoq_ota.Outcome.{ok}
use unoq_ota.Health.{Report, never_falls, last_of, progressed, matching, wait_healthy}

-- Each number is at least the one before it.
abbrev pub IsRising : ℕ → List ℕ → Type 0
IsRising x [] = Unit
IsRising x (y ∷ seqs) = (x ≤ y) × IsRising y seqs

never_falls-IsRising : (x : ℕ) (seqs : List ℕ) → (never_falls x seqs ≡ true) ↔ IsRising x seqs
unfolding never_falls
never_falls-IsRising x [] = (λ h. tt, λ h. refl)
never_falls-IsRising x (y ∷ seqs) =
    let ih = never_falls-IsRising y seqs in
    (λ h. (ground arith, ih.0 (ground arith)), λ (le, rest). ground (arith, ih.1 rest))

-- The sequence numbers of the expected version: at least this many, which never fall and which end
-- above the first.
pub data IsProgress (min_reports : ℕ) : List ℕ → Type 0 where
  progress :
      {first : ℕ} {later : List ℕ}
      → min_reports ≤ suc (length later)
      → IsRising first later
      → first < last_of first later
      → IsProgress min_reports (first ∷ later)

wait-seqs :
    (min_reports : ℕ) (seqs : List ℕ)
    → ((if ltb (length seqs) min_reports then ok false else progressed seqs) ≡ ok true)
      ↔ IsProgress min_reports seqs
unfolding progressed
wait-seqs min_reports [] = (λ h. absurd (ground arith), λ p. elim p [ ])
wait-seqs min_reports (x ∷ seqs) =
    let rising = never_falls-IsRising x seqs in
    (
      λ h. progress (ground arith) (rising.0 (ground arith)) (ground arith),
      λ p. elim p [
        | progress enough rises advances ↦ ground (arith, enough, advances, rising.1 rises)
      ],
    )

-- These are the sequence numbers of the version's reports, in their order.
pub data IsReported (version : String) : List Report → List ℕ → Type 0 where
  nothing : IsReported version [] []
  counted :
      {seq : ℕ} {reports : List Report} {seqs : List ℕ}
      → IsReported version reports seqs
      → IsReported version ((version, seq) ∷ reports) (seq ∷ seqs)
  other :
      {v : String} {seq : ℕ} {reports : List Report} {seqs : List ℕ}
      → v ≢ version
      → IsReported version reports seqs
      → IsReported version ((v, seq) ∷ reports) seqs

matching-IsReported :
    (e : String) (reports : List Report) → IsReported e reports (matching (some e) reports)
unfolding matching
matching-IsReported e [] = nothing
matching-IsReported e ((v, seq) ∷ reports) =
    let ih = matching-IsReported e reports in
    elim (Bool-cases (v == e)) [
      | inl same ↦ rw (same, (eq_iff v e).0 same) (counted ih)
      | inr differs ↦ rw differs (other (λ same. absurd (cc (differs, (eq_iff v e).1 same))) ih)
    ]

IsReported-matching :
    {e : String} {reports : List Report} {seqs : List ℕ}
    → IsReported e reports seqs
    → matching (some e) reports ≡ seqs
unfolding matching
IsReported-matching nothing = refl
IsReported-matching {e} (counted {seq} w) =
    rw (eq_refl e) (ap (λ l. seq ∷ l) (IsReported-matching w))
IsReported-matching {e} (other {v} ne w) = elim (Bool-cases (v == e)) [
  | inl same ↦ absurd (ne ((eq_iff v e).0 same))
  | inr differs ↦ rw differs (IsReported-matching w)
]

matching_none : (reports : List Report) → matching none reports ≡ []
unfolding matching
matching_none [] = refl
matching_none ((v, seq) ∷ reports) = matching_none reports

-- A version is expected, and its reports make progress.
abbrev pub IsHealthy : ℕ → Option String → List Report → Type 0
IsHealthy min_reports expected reports =
    (version : String) × (expected ≡ some version)
    × ((seqs : List ℕ) × IsReported version reports seqs × IsProgress min_reports seqs)

-- `wait_healthy` says yes exactly when the reports of the expected version are at least
-- `min_reports` in number and not none, never step backwards, and advance from first to last.
-- With no expected version it never does.
pub wait_healthy-accepts :
    (min_reports : ℕ) (expected : Option String) (reports : List Report)
    → (wait_healthy min_reports expected reports ≡ ok true) ↔ IsHealthy min_reports expected reports
unfolding wait_healthy
wait_healthy-accepts min_reports none reports =
    let judged = wait-seqs min_reports (matching none reports) in
    (
      λ h. absurd (elim (subst (IsProgress min_reports) (matching_none reports) (judged.0 h)) [ ]),
      λ (version, e, w). absurd (cc e),
    )
wait_healthy-accepts min_reports (some e) reports =
    let judged = wait-seqs min_reports (matching (some e) reports) in
    (
      λ h. (e, refl, (matching (some e) reports, matching-IsReported e reports, judged.0 h)),
      λ (version, same, (seqs, reported, progress')).
          let expected : version ≡ e = cc in
          let reported' : IsReported e reports seqs =
            subst (λ v. IsReported v reports seqs) expected reported in
          judged.1 (rw (IsReported-matching reported') progress'),
    )
