-- ===== src/Flasher/Dependents.antt =====
-- Which services `_running_dependents` (unoq_ota/flasher.py) finds.
use mathlib.Core.Path.{subst}
use unoq_ota.Prelude.{
  ℤ, pos, ◌≡◌, ◌≢◌, ◌↔◌, ◌⊎◌, inl, inr, refl, ap, sym, ◌∙◌, String, ◌<>◌, Bool, true, false, not,
  ◌&&◌, ◌||◌, List, [], ◌∷◌, ◌++◌, ◌==◌, eq_iff, eq_refl, contains, Bool-cases, if◌then◌else◌,
  arith,
}
use unoq_ota.Flasher.{
  Ran, finished, timed_out, not_found, not_started, Systemd, Call, list_dependencies, is_active,
  candidates_among, candidates_in, active_among, active_in, ask_active, is_zero,
}
use unoq_ota.Flasher.Sketch.{is_zero-pos}

contains-append :
    (xs : List String) (y n : String) → contains (xs ++ y ∷ []) n ≡ (contains xs n || (y == n))
contains-append [] y n = ground arith
contains-append (x ∷ xs) y n = ground (arith, contains-append xs y n)

or_true : (a b : Bool) → a || b ≡ true → (a ≡ true) ⊎ (b ≡ true)
or_true true b h = inl refl
or_true false b h = inr h

module _ (sd : Systemd) where
  -- A service, and not the unit itself.
  abbrev is_other : String → Bool
  is_other n = sd.is_service n && not (n == sd.unit) && not (n == sd.unit <> ".service")

  -- A name that is skipped is there already, or is not wanted.
  one_more :
      (found names : List String) (m n : String)
      → (contains
            (if not (sd.is_service m)
                || m == sd.unit
                || m == sd.unit <> ".service"
                || contains found m
              then found
              else found ++ m ∷ [])
            n
          || (contains names n && is_other n))
        ≡ (contains found n || ((m == n || contains names n) && is_other n))
  one_more found names m n = elim (Bool-cases (m == n)) [
    | inl same ↦
        let e : m ≡ n = (eq_iff m n).0 same in
        subst
          (λ k.
            (contains
                (if not (sd.is_service m)
                    || m == sd.unit
                    || m == sd.unit <> ".service"
                    || contains found m
                  then found
                  else found ++ m ∷ [])
                k
              || (contains names k && is_other k))
            ≡ (contains found k || ((m == k || contains names k) && is_other k)))
          e (ground (arith, contains-append found m m, eq_refl m))
    | inr differs ↦ ground (arith, contains-append found m n, differs)
  ]

  contains-candidates_among :
      (found names : List String) (n : String)
      → contains (candidates_among sd found names) n
        ≡ (contains found n || (contains names n && is_other n))
  unfolding candidates_among
  contains-candidates_among found [] n = ground arith
  contains-candidates_among found (m ∷ names) n =
      let skipped =
        not (sd.is_service m) || m == sd.unit || m == sd.unit <> ".service" || contains found m in
      let shorter =
        contains-candidates_among (if skipped then found else found ++ m ∷ []) names n in
      shorter ∙ one_more found names m n

  -- The unit's listing succeeded and has this line; it is a service, and not the unit.
  pub record IsListed (t : List Call) (n : String) : Type 0 where
    pub out : String
    pub err : String
    pub ran : sd.run t list_dependencies ≡ finished (pos 0) out err
    pub listed : contains (sd.names_in out) n ≡ true
    pub service : sd.is_service n ≡ true
    pub not_unit : n ≢ sd.unit
    pub not_service_of_unit : n ≢ sd.unit <> ".service"

  -- At one place, the name stands in the first list and "active" in the second.
  abbrev pub IsActiveAt : String → List String → List String → Type 0
  IsActiveAt n (m ∷ names) (s ∷ states) = ((m ≡ n) × (s ≡ "active")) ⊎ IsActiveAt n names states
  IsActiveAt n _ _ = ⊥

  contains-active_among :
      (names states : List String) (n : String)
      → (contains (active_among sd names states) n ≡ true) ↔ IsActiveAt n names states
  unfolding active_among
  contains-active_among [] states n = (λ h. absurd (cc h), λ h. absurd h)
  contains-active_among (m ∷ names) [] n = (λ h. absurd (cc h), λ h. absurd h)
  contains-active_among (m ∷ names) (s ∷ states) n =
      let ih = contains-active_among names states n in
      elim (Bool-cases (s == "active")) [
        | inl active ↦ rw active (
          λ h. elim (or_true (m == n) (contains (active_among sd names states) n) h) [
            | inl e ↦ inl ((eq_iff m n).0 e, (eq_iff s "active").0 active)
            | inr later ↦ inr (ih.0 later)
          ],
          λ w. elim w [
            | inl here ↦ ground (arith, (eq_iff m n).1 here.0)
            | inr later ↦ ground (arith, ih.1 later)
          ],
        )
        | inr other ↦ rw other (
          λ h. inr (ih.0 h),
          λ w. elim w [
            | inl here ↦ absurd (cc (other, (eq_iff s "active").1 here.1))
            | inr later ↦ ih.1 later
          ],
        )
      ]

  -- Asked about these names, systemctl says of this one that it is active.
  abbrev pub IsReported : List Call → List String → String → Type 0
  IsReported t names n =
      (code : ℤ) × (out : String) × (err : String) × (sd.run (list_dependencies ∷ t)
          (is_active names)
        ≡ finished code out err)
      × IsActiveAt n names (sd.words_in out)

  and_true : (a b : Bool) → a && b ≡ true → (a ≡ true) × (b ≡ true)
  and_true true b h = (refl, h)
  and_true false b h = absurd (cc h)

  is_other-IsListed :
      (n : String)
      → is_other n ≡ true
      → (sd.is_service n ≡ true) × (n ≢ sd.unit) × (n ≢ sd.unit <> ".service")
  is_other-IsListed n h = (
    ground (arith, h),
    λ e. absurd (ground (arith, h, (eq_iff n sd.unit).1 e)),
    λ e. absurd (ground (arith, h, (eq_iff n (sd.unit <> ".service")).1 e)),
  )

  IsListed-is_other : (t : List Call) (n : String) (w : IsListed t n) → is_other n ≡ true
  IsListed-is_other t n w = elim (Bool-cases (n == sd.unit)) [
    | inl e ↦ absurd (w.not_unit ((eq_iff n sd.unit).0 e))
    | inr e ↦ elim (Bool-cases (n == sd.unit <> ".service")) [
      | inl e' ↦ absurd (w.not_service_of_unit ((eq_iff n (sd.unit <> ".service")).0 e'))
      | inr e' ↦ rw (w.service, e, e') refl
    ]
  ]

  candidates_of-IsListed :
      (t : List Call) (r : Ran) (n : String)
      → sd.run t list_dependencies ≡ r
      → (contains (candidates_in sd r) n ≡ true) ↔ IsListed t n
  unfolding candidates_in
  candidates_of-IsListed t timed_out n e = (λ h. absurd (cc h), λ w. absurd (cc (e, w.ran)))
  candidates_of-IsListed t not_found n e = (λ h. absurd (cc h), λ w. absurd (cc (e, w.ran)))
  candidates_of-IsListed t (not_started m) n e = (λ h. absurd (cc h), λ w. absurd (cc (e, w.ran)))
  candidates_of-IsListed t (finished code out err) n e =
      let held = contains-candidates_among [] (sd.names_in out) n in
      elim (Bool-cases (is_zero code)) [
        | inl zero ↦ rw zero (
          λ h.
              let (listed, other) = and_true (contains (sd.names_in out) n) _ (sym held ∙ h) in
              let (service, not_unit, not_service) = is_other-IsListed n other in
              record {
                out = out;
                err = err;
                ran = e ∙ ap (λ c. finished c out err) (is_zero-pos code zero);
                listed = listed;
                service = service;
                not_unit = not_unit;
                not_service_of_unit = not_service;
              },
          λ w.
              let same : out ≡ w.out = cc (e, w.ran) in
              let listed : contains (sd.names_in out) n ≡ true =
                ap (λ o. contains (sd.names_in o) n) same ∙ w.listed in
              held ∙ ground (arith, listed, IsListed-is_other t n w),
        )
        | inr other ↦ rw other (
          λ h. absurd (cc h),
          λ w. let zero : code ≡ pos 0 = cc (e, w.ran) in absurd (cc (other, ap is_zero zero)),
        )
      ]

  pub candidates_in-IsListed :
      (t : List Call) (n : String)
      → (contains (candidates_in sd (sd.run t list_dependencies)) n ≡ true) ↔ IsListed t n
  candidates_in-IsListed t n = candidates_of-IsListed t (sd.run t list_dependencies) n refl

  active_of-IsActiveAt :
      (names : List String) (r : Ran) (n : String)
      → (contains (active_in sd names r) n ≡ true) ↔ (
          (code : ℤ) × (out : String) × (err : String) × (r ≡ finished code out err)
          × IsActiveAt n names (sd.words_in out))
  active_of-IsActiveAt names timed_out n =
      (λ h. absurd (cc h), λ (code', out', err', e, w). absurd (cc e))
  active_of-IsActiveAt names not_found n =
      (λ h. absurd (cc h), λ (code', out', err', e, w). absurd (cc e))
  active_of-IsActiveAt names (not_started m) n =
      (λ h. absurd (cc h), λ (code', out', err', e, w). absurd (cc e))
  active_of-IsActiveAt names (finished code out err) n = (
    λ h. (code, out, err, refl, (contains-active_among names (sd.words_in out) n).0 h),
    λ (code', out', err', e, w).
        let same : out' ≡ out = cc e in
        (contains-active_among names (sd.words_in out) n).1
          (subst (λ o. IsActiveAt n names (sd.words_in o)) same w),
  )

  -- The calls that ask, the newest first: about no names there is nothing to ask.
  abbrev pub asked : List String → List Call → List Call
  asked [] t = list_dependencies ∷ t
  asked (m ∷ names) t = is_active (m ∷ names) ∷ list_dependencies ∷ t

  pub ask_active-asked :
      (names : List String) (t : List Call)
      → (ask_active sd names (list_dependencies ∷ t)).1 ≡ asked names t
  ask_active-asked [] t = refl
  ask_active-asked (m ∷ names) t = refl

  pub ask_active-IsReported :
      (names : List String) (t : List Call) (n : String)
      → (contains (ask_active sd names (list_dependencies ∷ t)).0 n ≡ true) ↔ IsReported t names n
  ask_active-IsReported [] t n = (λ h. absurd (cc h), λ (code', out', err', e, w). absurd w)
  ask_active-IsReported (m ∷ names) t n =
      active_of-IsActiveAt (m ∷ names) (sd.run (list_dependencies ∷ t) (is_active (m ∷ names))) n
