-- ===== src/Agent/Discipline/Verification.antt =====
-- The verification stage, under a discipline.
use unoq_ota.Prelude.{◌≡◌, refl, Bool, true, false, List, String, inl, inr}
use unoq_ota.Outcome.{
  Outcome, ok, raised, Raised, verification_error, artifact_error, Outcome-cases, is_poisonable,
}
use unoq_ota.Python.{Python, IsLawful}
use unoq_ota.Artifact.{SketchArtifact}
use unoq_ota.State.{State}
use unoq_ota.Interfaces.{Update, Status}
use unoq_ota.Agent.World.{World, Env, Event, staged, staged_host, unlink, verified, loaded, log}
use unoq_ota.Agent.Cycle.{caught, ◌>>=◌}
use unoq_ota.Agent.Cycle.Moves.{Moves, Moves-swallow, Moves-bind, Moves-bind_to, Moves-of}
use unoq_ota.Agent.Store.{clear, put, with_attempt, record_attempt}
use unoq_ota.Agent.Fetch.{
  with_verified, defer, unlink_staged, stamp_verified, reject_poisoned, apply_verified,
  after_verify, verify_and_load, verify_stage,
}
use unoq_ota.Agent.Discipline.{
  Point, between, considered, refused, judged, accepted, Discipline, Holds,
}
use unoq_ota.Agent.Discipline.Steps.{
  Holds-log, Holds-settles, Moves-perform, Moves-load, Moves-save, Moves-update, Moves-set_phase,
  Moves-poison,
}
use unoq_ota.Agent.Discipline.Rollback.{Moves-concludes}
use unoq_ota.Agent.Discipline.Install.{Moves-gate_stage}

module _ {py : Python} (law : IsLawful py) {env : Env py} {P : Point → State → List Event → Type 0}
    (d : Discipline env P) where
  pub Moves-defer :
      (p : Point) (u : Update) (status : Status) (detail : String)
      → Moves (Holds (P p)) (Holds (P between)) (defer env u status detail)
  unfolding defer
  Moves-defer p u status detail =
      Moves-of _ (Moves-concludes law d p u status detail _ _ clear) (Holds-settles law d p)

  pub Moves-unlink_staged : (p : Point) → Moves (Holds (P p)) (Holds (P p)) (unlink_staged env)
  unfolding unlink_staged
  Moves-unlink_staged p =
      Moves-bind _ _ (Moves-perform law d p (unlink staged) refl)
        (λ _. Moves-perform law d p (unlink staged_host) refl)

  Moves-stamp_verified :
      (u : Update) (a : SketchArtifact)
      → Moves (Holds (P (accepted u a))) (Holds (P between)) (stamp_verified env u)
  unfolding stamp_verified
  Moves-stamp_verified u a =
      Moves-bind_to _ _ (Moves-unlink_staged (accepted u a)) (Holds-settles law d (accepted u a))
        λ _. Moves-load law d (accepted u a) _ λ s.
          Moves-bind _ _
            (Moves-save law d (accepted u a) between s (with_verified u s) (d.stamps u a s)
              (λ w e failed h. d.settles (accepted u a) s w.trace h))
            λ _. Moves-defer between u _ _

  Moves-reject_poisoned :
      (u : Update) (detail : String)
      → Moves (Holds (P (refused u))) (Holds (P between)) (reject_poisoned env u detail)
  unfolding reject_poisoned
  Moves-reject_poisoned u detail = Moves-bind_to _ _ (Moves-swallow _ attempt) over λ _.
      Moves-bind_to _ _ (Moves-swallow _ (Moves-poison law d u)) over
        λ _. Moves-of _ (Moves-concludes law d (judged u) u _ _ _ _ (put u.version)) over
    where
      over : (w : World py) → Holds (P (judged u)) w → Holds (P between) w
      over = Holds-settles law d (judged u)

      attempt : Moves (Holds (P (refused u))) (Holds (P (judged u))) (record_attempt env u.version)
      attempt =
          unfold record_attempt in
          Moves-update law d (refused u) (judged u) (λ s. with_attempt s u.version) (d.attempts u)
            (λ s w e failed h. d.misses_attempt u s w.trace h)

  -- where the checks of the `try` block leave the device
  abbrev Checked : Update → Outcome SketchArtifact → World py → Type 0
  Checked u (ok a) = Holds (P (accepted u a))
  Checked u (raised (verification_error m true)) = Holds (P (refused u))
  Checked u (raised (verification_error m false)) = Holds (P (considered u))
  Checked u (raised (artifact_error m)) = Holds (P (refused u))
  Checked u (raised e) = Holds (P (considered u))

  Checked-raised :
      (u : Update) (e : Raised) (w : World py)
      → (is_poisonable e ≡ true → Holds (P (refused u)) w)
      → Holds (P (considered u)) w
      → Checked u (raised e) w
  Checked-raised u (verification_error m true) w bad h = bad refl
  Checked-raised u (verification_error m false) w bad h = h
  Checked-raised u (artifact_error m) w bad h = bad refl
  Checked-raised u e w bad h = h

  Checked-verify_and_load :
      (u : Update) (w : World py)
      → Holds (P (considered u)) w
      → Checked u (verify_and_load env u w).0 (verify_and_load env u w).1
  unfolding verify_and_load ◌>>=◌
  Checked-verify_and_load u w h =
      rw h.loads (elim (Outcome-cases (env.verify w u h.state.sequence)) [
        | inl (t, good) ↦
            let w' = log (verified u.version (ok tt)) w in
            rw good (elim (Outcome-cases (env.load w' staged)) [
              | inl (a, found) ↦ rw found (record {
                state = h.state;
                loads = h.loads;
                holds = d.accepts u a h.state w.trace h.holds;
              })
              | inr (e, lost) ↦ rw lost (
                  Checked-raised u e (log (loaded staged (raised e)) w')
                    (λ bad. record {
                      state = h.state;
                      loads = h.loads;
                      holds = d.refuses_load u h.state w.trace e bad h.holds;
                    })
                    (Holds-log law d (considered u) w' (loaded staged (raised e)) refl
                      (Holds-log law d (considered u) w (verified u.version (ok tt)) refl h)))
            ])
        | inr (e, bad) ↦ rw bad (
            Checked-raised u e (log (verified u.version (raised e)) w)
              (λ poisonable. record {
                state = h.state;
                loads = h.loads;
                holds = d.refuses_verify u h.state w.trace e poisonable h.holds;
              })
              (Holds-log law d (considered u) w (verified u.version (raised e)) refl h))
      ])

  Moves-apply_verified :
      (b : Bool) (u : Update) (a : SketchArtifact)
      → env.no_flash ≡ b
      → Moves (Holds (P (accepted u a))) (Holds (P between)) (apply_verified env b u a)
  unfolding apply_verified
  Moves-apply_verified true u a dry = Moves-stamp_verified u a
  Moves-apply_verified false u a wet = Moves-gate_stage law d u a wet

  after_Checked :
      (u : Update) (r : Outcome SketchArtifact) (w : World py)
      → Checked u r w
      → Holds (P between) (after_verify env u r w).1
  unfolding after_verify
  after_Checked u (ok a) w h = (Moves-apply_verified env.no_flash u a refl).at w h
  after_Checked u (raised (verification_error m true)) w h = (Moves-reject_poisoned u m).at w h
  after_Checked u (raised (verification_error m false)) w h =
      (Moves-defer (considered u) u _ m).at w h
  after_Checked u (raised (artifact_error m)) w h = (Moves-reject_poisoned u m).at w h
  after_Checked u (raised e) w h = (Moves-defer (considered u) u _ _).at w h

  pub Moves-verify_stage :
      (u : Update) → Moves (Holds (P (considered u))) (Holds (P between)) (verify_stage env u)
  unfolding verify_stage
  Moves-verify_stage u =
      Moves-bind_to _ _ (Moves-set_phase law d (considered u) _ (put u.version))
        (Holds-settles law d (considered u)) λ _. checks
    where
      checks :
          Moves
            (Holds (P (considered u)))
            (Holds (P between))
            (caught (verify_and_load env u) >>= after_verify env u)
      checks =
          unfold ◌>>=◌ in
          record {
            at = λ w h.
                let (r, w') = verify_and_load env u w in
                after_Checked u r w' (Checked-verify_and_load u w h);
          }
