-- ===== src/Agent/Safety/Blame.antt =====
-- What it takes for a version to be charged with an attempt or poisoned.
use unoq_ota.Prelude.{
  ℕ, ℤ, pos, leb_ℤ, ◌≡◌, ◌≢◌, ◌∙◌, refl, ap, Bool, true, false, ◌||◌, List, [], ◌∷◌, String, ◌==◌,
  eq_iff, contains, contains-append, arith, ◌⊎◌, inl, inr, Bool-cases,
}
use unoq_ota.Outcome.{ok, raised, Raised, is_poisonable}
use unoq_ota.Python.{Python, IsLawful}
use unoq_ota.Artifact.{SketchArtifact}
use unoq_ota.State.{State, load, max_attempts}
use unoq_ota.Interfaces.{Update}
use unoq_ota.Agent.World.{World, Env, Event, staged, loaded, verified, installed, restored}
use unoq_ota.Agent.Store.{attempts_in, with_attempt, with_poisoned}
use unoq_ota.Agent.Fetch.{run_cycles, with_verified}
use unoq_ota.Agent.Install.{with_commit}
use unoq_ota.Agent.Discipline.{
  Point, between, considered, refused, judged, accepted, permitted, counted, flashed, Discipline,
  Holds,
}
use unoq_ota.Agent.Discipline.Fetch.{Holds-run_cycles}
use unoq_ota.Agent.Safety.Attempts.{attempts_in-with_attempt}

-- The verification of the version passed, or failed for a reason that the agent poisons for.
pub data HadVerdict (v : String) : List Event → Type 0 where
  verify_refused :
      {t : List Event} {j : String} {e : Raised}
      → j ≡ v
      → is_poisonable e ≡ true
      → HadVerdict v (verified j (raised e) ∷ t)
  load_refused :
      {t : List Event} {j : String} {e : Raised}
      → j ≡ v
      → is_poisonable e ≡ true
      → HadVerdict v (loaded staged (raised e) ∷ verified j (ok tt) ∷ t)
  passed :
      {t : List Event} {j : String} {a : SketchArtifact}
      → j ≡ v
      → HadVerdict v (loaded staged (ok a) ∷ verified j (ok tt) ∷ t)
  earlier : {t : List Event} {e : Event} → HadVerdict v t → HadVerdict v (e ∷ t)

contains-poisoned_ne :
    (s : State) (v j : String)
    → j ≢ v
    → contains (with_poisoned s j).poisoned v ≡ contains s.poisoned v
contains-poisoned_ne s v j h = elim (Bool-cases (contains s.poisoned j)) [
  | inl e ↦ rw e refl
  | inr e ↦ rw e (rw contains-append (other (contains s.poisoned v)))
]
  where
    other : (b : Bool) → (b || contains (j ∷ []) v) ≡ b
    other b = ground (arith, eq_iff j v)

module _ (v : String) (n : ℤ) (fits : leb_ℤ (pos max_attempts) n ≡ false) where
  abbrev Clean : State → Type 0
  Clean s = (contains s.poisoned v ≡ false) × (attempts_in s v ≡ n)

  abbrev Fair : State → List Event → Type 0
  Fair s t = Clean s ⊎ HadVerdict v t

  abbrev Charged : Update → List Event → Type 0
  Charged u t = u.version ≡ v → HadVerdict v t

  abbrev Just : Point → State → List Event → Type 0
  Just between s t = Fair s t
  Just (considered u) s t = Fair s t
  Just (refused u) s t = Fair s t × Charged u t
  Just (judged u) s t = Fair s t × Charged u t
  Just (accepted u a) s t = Fair s t × Charged u t
  Just (permitted u a) s t = Fair s t × Charged u t
  Just (counted u a) s t = Fair s t × Charged u t
  Just (flashed u) s t = Fair s t × Charged u t

  Fair-more : (s : State) (t : List Event) (e : Event) → Fair s t → Fair s (e ∷ t)
  Fair-more s t e (inl c) = inl c
  Fair-more s t e (inr g) = inr (earlier g)

  both_more :
      (u : Update) (s : State) (t : List Event) (e : Event)
      → Fair s t × Charged u t
      → Fair s (e ∷ t) × Charged u (e ∷ t)
  both_more u s t e h = (Fair-more s t e h.0, λ same. earlier (h.1 same))

  Just-more : (p : Point) (s : State) (t : List Event) (e : Event) → Just p s t → Just p s (e ∷ t)
  Just-more between s t e h = Fair-more s t e h
  Just-more (considered u) s t e h = Fair-more s t e h
  Just-more (refused u) s t e h = both_more u s t e h
  Just-more (judged u) s t e h = both_more u s t e h
  Just-more (accepted u a) s t e h = both_more u s t e h
  Just-more (permitted u a) s t e h = both_more u s t e h
  Just-more (counted u a) s t e h = both_more u s t e h
  Just-more (flashed u) s t e h = both_more u s t e h

  Fair-same :
      (s s' : State) (t : List Event)
      → s'.poisoned ≡ s.poisoned
      → s'.attempts ≡ s.attempts
      → Fair s t
      → Fair s' t
  Fair-same s s' t e f (inl c) = inl (rw (e, f) c)
  Fair-same s s' t e f (inr g) = inr g

  Just-same :
      (p : Point) (s s' : State) (t : List Event)
      → s'.poisoned ≡ s.poisoned
      → s'.attempts ≡ s.attempts
      → Just p s t
      → Just p s' t
  Just-same between s s' t e f h = Fair-same s s' t e f h
  Just-same (considered u) s s' t e f h = Fair-same s s' t e f h
  Just-same (refused u) s s' t e f h = (Fair-same s s' t e f h.0, h.1)
  Just-same (judged u) s s' t e f h = (Fair-same s s' t e f h.0, h.1)
  Just-same (accepted u a) s s' t e f h = (Fair-same s s' t e f h.0, h.1)
  Just-same (permitted u a) s s' t e f h = (Fair-same s s' t e f h.0, h.1)
  Just-same (counted u a) s s' t e f h = (Fair-same s s' t e f h.0, h.1)
  Just-same (flashed u) s s' t e f h = (Fair-same s s' t e f h.0, h.1)

  Just-settles : (p : Point) (s : State) (t : List Event) → Just p s t → Fair s t
  Just-settles between s t h = h
  Just-settles (considered u) s t h = h
  Just-settles (refused u) s t h = h.0
  Just-settles (judged u) s t h = h.0
  Just-settles (accepted u a) s t h = h.0
  Just-settles (permitted u a) s t h = h.0
  Just-settles (counted u a) s t h = h.0
  Just-settles (flashed u) s t h = h.0

  -- Poisoning, and charging, a version with cause.
  Fair-with_poisoned :
      (u : Update) (s : State) (t : List Event)
      → Fair s t
      → Charged u t
      → Fair (with_poisoned s u.version) t
  Fair-with_poisoned u s t (inr g) charged = inr g
  Fair-with_poisoned u s t (inl c) charged = elim (Bool-cases (u.version == v)) [
    | inl same ↦ inr (charged ((eq_iff u.version v).0 same))
    | inr other ↦ inl (
      contains-poisoned_ne s v u.version (λ same. cc (other, (eq_iff u.version v).1 same)) ∙ c.0,
      c.1,
    )
  ]

  Fair-with_attempt :
      (u : Update) (s : State) (t : List Event)
      → Fair s t
      → Charged u t
      → Fair (with_attempt s u.version) t
  Fair-with_attempt u s t (inr g) charged = inr g
  Fair-with_attempt u s t (inl c) charged = elim (Bool-cases (u.version == v)) [
    | inl same ↦ inr (charged ((eq_iff u.version v).0 same))
    | inr other ↦
        let now : attempts_in (with_attempt s u.version) v ≡ attempts_in s v =
          attempts_in-with_attempt s u.version v ∙ rw other refl in
        inl (c.0, now ∙ c.1)
  ]

  -- A version that a guard refused had its verdict.
  Charged-of_cap :
      (u : Update) (s : State) (t : List Event)
      → (contains s.poisoned u.version ≡ true)
        ⊎ (leb_ℤ (pos max_attempts) (attempts_in s u.version) ≡ true)
      → Fair s t
      → Charged u t
  Charged-of_cap u s t why (inr g) same = g
  Charged-of_cap u s t (inl bad) (inl c) same = cc (bad, c.0, ap (contains s.poisoned) same)
  Charged-of_cap u s t (inr many) (inl c) same = cc (
    many,
    fits,
    ap (λ j. leb_ℤ (pos max_attempts) (attempts_in s j)) same,
    ap (leb_ℤ (pos max_attempts)) c.1,
  )

  just : {py : Python} (env : Env py) → Discipline env Just
  just env = record {
    quiet = λ p s t e q h. Just-more p s t e h;
    labels = λ p s t phase label h. Just-same p s _ t refl refl h;
    settles = Just-settles;
    caps = λ u s t why h. Fair-with_poisoned u s t h (Charged-of_cap u s t why h);
    poisons = λ u s t h. (Fair-with_poisoned u s t h.0 h.1, h.1);
    blames = λ u s t h. (Fair-with_poisoned u s t h.0 h.1, h.1);
    restores = λ u s t n_ a h. both_more u s t (restored n_ a) h;
    enters = λ u s t good few new h. h;
    refuses_verify = λ u s t e bad h.
        (Fair-more s t (verified u.version (raised e)) h, λ same. verify_refused same bad);
    refuses_load = λ u s t e bad h. (
      Fair-more s _ (loaded staged (raised e)) (Fair-more s t (verified u.version (ok tt)) h),
      λ same. load_refused same bad,
    );
    attempts = λ u s t h. (Fair-with_attempt u s t h.0 h.1, h.1);
    misses_attempt = λ u s t h. h;
    stamps = λ u a s t h. Fair-same s (with_verified u s) t refl refl h.0;
    accepts = λ u a s t h. (
      Fair-more s _ (loaded staged (ok a)) (Fair-more s t (verified u.version (ok tt)) h),
      λ same. passed same,
    );
    permits = λ u a s t reason wet h. both_more u s t _ h;
    counts = λ u a s t h. (Fair-with_attempt u s t h.0 h.1, h.1);
    misses = λ u a s w e failed h. h;
    installs = λ u a s t h. both_more u s t (installed u.version a) h;
    commits = λ u had s t h. Fair-same s (with_commit u had s) t refl refl h.0;
  }

-- Start from a readable state where a version is not poisoned and has fewer recorded attempts than
-- `MAX_ATTEMPTS`. In any number of cycles, whatever the collaborators answer or raise: unless the
-- trace holds a verification of that version that passed with its artifact loaded, or that failed
-- with a poisonable error, the version is still not poisoned and its attempts are as they were.
pub verdict_before_blame :
    {py : Python} (law : IsLawful py) (env : Env py) (v : String) (n : ℕ) (w : World py) (s : State)
    → load py w.state_file ≡ ok s
    → contains s.poisoned v ≡ false
    → leb_ℤ (pos max_attempts) (attempts_in s v) ≡ false
    → (s' : State) × (load py (run_cycles env n w).state_file ≡ ok s')
      × (((contains s'.poisoned v ≡ false) × (attempts_in s' v ≡ attempts_in s v))
          ⊎ HadVerdict v (run_cycles env n w).trace)
verdict_before_blame law env v n w s readable good few =
    let start : Holds (Just v (attempts_in s v) few between) w = record {
      state = s;
      loads = readable;
      holds = inl (good, refl);
    } in
    let h = Holds-run_cycles law (just v (attempts_in s v) few env) n w start in
    (h.state, h.loads, h.holds)
