-- ===== src/Reconciler/Recovery.antt =====
-- What `reconcile` (unoq_ota/reconciler.py) returns, against the steps that it took.
use unoq_ota.Prelude.{
  ◌≡◌, refl, ap, ◌⊎◌, inl, inr, String, Bool, true, false, Option, List, [], ◌∷◌, Bool-cases,
}
use unoq_ota.Outcome.{Outcome, ok, raised, Raised, os_error}
use unoq_ota.Artifact.{SketchArtifact}
use unoq_ota.Agent.World.{FileName}
use unoq_ota.Reconciler.{
  Board, ReconcileResult, Step, Steps, probed, asked, loaded, flashed, said_alive, untouched,
  reflashed, exhausted, candidates, is_alive, after_flash, after_load, after_is_file, try_image,
  try_images, reconcile,
}

-- `Path.is_file` raises nothing but an `OSError`.
abbrev pub IsFileSystem : Board → Type 0
IsFileSystem b =
    (t : Steps) (n : FileName) (e : Raised)
    → b.is_file t n ≡ raised e
    → (m : String) × (e ≡ os_error m)

-- The image had its turn: it is not there, or cannot be read, loaded or flashed, or it was flashed
-- and nothing was alive afterwards.
pub data WasTried (n : FileName) : Steps → Type 0 where
  absent : {t : Steps} → WasTried n (asked n (ok false) ∷ t)
  unreadable : {t : Steps} {m : String} → WasTried n (asked n (raised (os_error m)) ∷ t)
  unloadable : {t : Steps} {e : Raised} → WasTried n (loaded n (raised e) ∷ t)
  unflashable : {t : Steps} {e : Raised} → WasTried n (flashed n (raised e) ∷ t)
  dead :
      {t : Steps} {r : Outcome (Option String)}
      → said_alive r ≡ false
      → WasTried n (probed r ∷ flashed n (ok tt) ∷ t)
  earlier : {t : Steps} {s : Step} → WasTried n t → WasTried n (s ∷ t)

pub data Later (t : Steps) : Steps → Type 0 where
  same : Later t t
  newer : {t' : Steps} {s : Step} → Later t t' → Later t (s ∷ t')

abbrev pub AllTried : List FileName → Steps → Type 0
AllTried [] t = Unit
AllTried (n ∷ names) t = WasTried n t × AllTried names t

-- The newest probe found a version, and it came right after this image was flashed.
abbrev pub Revived : FileName → Steps → Type 0
Revived n t =
    (r : Outcome (Option String)) × (t' : Steps) × (t ≡ probed r ∷ flashed n (ok tt) ∷ t')
    × (said_alive r ≡ true)

WasTried-Later : {n : FileName} {t t' : Steps} → WasTried n t → Later t t' → WasTried n t'
WasTried-Later h same = h
WasTried-Later h (newer l) = earlier (WasTried-Later h l)

Later-trans : {t u v : Steps} → Later t u → Later u v → Later t v
Later-trans l same = l
Later-trans l (newer m) = newer (Later-trans l m)

-- What one round gives, from the steps before it.
abbrev Round : FileName → Steps → Outcome Bool × Steps → Type 0
Round n t p =
    (t' : Steps) × Later t t'
    × (((p ≡ (ok true, t')) × Revived n t') ⊎ ((p ≡ (ok false, t')) × WasTried n t'))

module _ (b : Board) where
  Round-flash :
      (n : FileName) (t u : Steps) (r : Outcome (Unit {0}))
      → Later t u
      → Round n t (after_flash b r (flashed n r ∷ u))
  unfolding after_flash is_alive
  Round-flash n t u (raised e) l = (flashed n (raised e) ∷ u, newer l, inr (refl, unflashable))
  Round-flash n t u (ok done) l =
      let r = b.wait_alive (flashed n (ok tt) ∷ u) in
      (
        probed r ∷ flashed n (ok tt) ∷ u,
        newer (newer l),
        elim (Bool-cases (said_alive r)) [
          | inl alive ↦ inl (rw alive refl, (r, u, refl, alive))
          | inr silent ↦ inr (rw silent refl, dead silent)
        ],
      )

  Round-load :
      (n : FileName) (t u : Steps) (r : Outcome SketchArtifact)
      → Later t u
      → Round n t (after_load b n r (loaded n r ∷ u))
  unfolding after_load
  Round-load n t u (raised e) l = (loaded n (raised e) ∷ u, newer l, inr (refl, unloadable))
  Round-load n t u (ok a) l =
      Round-flash n t (loaded n (ok a) ∷ u) (b.flash (loaded n (ok a) ∷ u) a) (newer l)

  Round-is_file :
      (n : FileName) (t : Steps) (r : Outcome Bool)
      → ((e : Raised) → r ≡ raised e → (m : String) × (e ≡ os_error m))
      → Round n t (after_is_file b n r (asked n r ∷ t))
  unfolding after_is_file
  Round-is_file n t (ok true) h =
      Round-load n t (asked n (ok true) ∷ t) (b.load (asked n (ok true) ∷ t) n) (newer same)
  Round-is_file n t (ok false) h = (asked n (ok false) ∷ t, newer same, inr (refl, absent))
  Round-is_file n t (raised (os_error m)) h =
      (asked n (raised (os_error m)) ∷ t, newer same, inr (refl, unreadable))
  Round-is_file n t (raised e) h = absurd (cc (h e refl).1)

  module _ (fs : IsFileSystem b) where
    Round-try_image : (n : FileName) (t : Steps) → Round n t (try_image b n t)
    unfolding try_image
    Round-try_image n t = Round-is_file n t (b.is_file t n) (fs t n)

    -- What the loop gives over these images.
    abbrev Recovered : List FileName → Steps → Outcome ReconcileResult × Steps → Type 0
    Recovered names t p =
        (t' : Steps) × Later t t'
        × (((n : FileName) × (p ≡ (ok (reflashed n), t')) × Revived n t')
            ⊎ ((p ≡ (ok exhausted, t')) × AllTried names t'))

    Recovered-try_images :
        (names : List FileName) (t : Steps) → Recovered names t (try_images b names t)
    unfolding try_images
    Recovered-try_images [] t = (t, same, inr (refl, tt))
    Recovered-try_images (n ∷ names) t =
        let (u, l, result) = Round-try_image n t in
        elim result [
          | inl (e, revived) ↦
              rw (try_images, ap (λ p. p.0) e, ap (λ p. p.1) e) (u, l, inl (n, refl, revived))
          | inr (e, tried) ↦
              let (v, m, rest) = Recovered-try_images names u in
              rw (try_images, ap (λ p. p.0) e, ap (λ p. p.1) e)
                (
                  v,
                  Later-trans l m,
                  elim rest [
                    | inl found ↦ inl found
                    | inr (e', all) ↦ inr (e', (WasTried-Later tried m, all))
                  ],
                )
        ]

-- Where `is_file` raises nothing but an `OSError`, recovery returns a result, whatever the health
-- check, `load` and `flash` answer or raise. Either the first probe finds a version and nothing else
-- is done; or an image was flashed and the probe right after it finds a version; or the result is
-- unhealthy, and the current, the previous and the golden image have each had their turn.
pub reconcile-recovers :
    (b : Board)
    → IsFileSystem b
    → (t : Steps)
    → (t' : Steps) × (((reconcile b t ≡ (ok untouched, t'))
          × (t' ≡ probed (b.wait_alive t) ∷ t)
          × (said_alive (b.wait_alive t) ≡ true))
        ⊎ (((n : FileName) × (reconcile b t ≡ (ok (reflashed n), t')) × Revived n t')
            ⊎ ((reconcile b t ≡ (ok exhausted, t')) × AllTried candidates t')))
unfolding reconcile is_alive
reconcile-recovers b fs t = elim (Bool-cases (said_alive (b.wait_alive t))) [
  | inl alive ↦ (probed (b.wait_alive t) ∷ t, inl (rw alive refl, refl, alive))
  | inr silent ↦
      let (t', l, rest) = Recovered-try_images b fs candidates (probed (b.wait_alive t) ∷ t) in
      (t', inr (rw silent rest))
]
