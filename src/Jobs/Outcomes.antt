-- ===== src/Jobs/Outcomes.antt =====
-- `_status_from_cycle` of unoq_ota/jobs_runner.py, against a description of success.
use unoq_ota.Prelude.{
  ◌≡◌, ◌↔◌, refl, ap, true, false, ◌⊎◌, inl, inr, Option, none, some, ◌==◌, String, eq_iff, arith,
}
use unoq_ota.Jobs.{CycleResult, succeeded, status_from_cycle, is_text, is_blank, is_idle}

-- The cycle verified or committed an update, or found nothing to do, and rejected nothing.
pub record WasSuccess (r : CycleResult) : Type 0 where
  pub phase_stands : is_text "rejected" r.phase ≡ false
  pub accepted :
      (r.reported ≡ some "verified")
      ⊎ ((r.reported ≡ some "committed")
          ⊎ ((is_blank r.reported ≡ true) × (is_idle r.phase ≡ true)))

is_text-some : (t : String) (o : Option String) → is_text t o ≡ true → o ≡ some t
is_text-some t none h = absurd (cc h)
is_text-some t (some s) h = ap some ((eq_iff s t).0 h)

-- What the tests answer on a text.
tests-some :
    (t : String) (o : Option String)
    → o ≡ some t
    → (is_text "rejected" o ≡ (t == "rejected"))
      × (is_text "waiting_for_gate" o ≡ (t == "waiting_for_gate"))
      × (is_text "verified" o ≡ (t == "verified"))
      × (is_text "committed" o ≡ (t == "committed"))
tests-some t o e = (
  ap (is_text "rejected") e,
  ap (is_text "waiting_for_gate") e,
  ap (is_text "verified") e,
  ap (is_text "committed") e,
)

-- No text is blank and one of the words.
tests-blank :
    (o : Option String)
    → is_blank o ≡ true
    → (is_text "rejected" o ≡ false)
      × (is_text "waiting_for_gate" o ≡ false)
      × (is_text "verified" o ≡ false)
      × (is_text "committed" o ≡ false)
tests-blank none h = (refl, refl, refl, refl)
tests-blank (some s) h =
    let (a, b, c, d) = tests-some "" (some s) (ap some ((eq_iff s "").0 h)) in (a, b, c, d)

-- A job succeeds exactly when the cycle did not end in a rejection and its last report was of a
-- verified or a committed update, or it reported nothing and stayed idle. Everything else, a deferral
-- and a rollback among them, is a failure.
pub status_from_cycle-succeeds :
    (r : CycleResult) → ((status_from_cycle r).0 ≡ succeeded) ↔ WasSuccess r
unfolding status_from_cycle
status_from_cycle-succeeds r = (
  λ h. ground (arith, is_text-some "verified" r.reported, is_text-some "committed" r.reported),
  λ w. elim w.accepted [
    | inl e ↦
        let (a, b, c, d) = tests-some "verified" r.reported e in ground (arith, w.phase_stands)
    | inr (inl e) ↦
        let (a, b, c, d) = tests-some "committed" r.reported e in ground (arith, w.phase_stands)
    | inr (inr (e, idle)) ↦
        let (a, b, c, d) = tests-blank r.reported e in ground (arith, w.phase_stands)
  ],
)
