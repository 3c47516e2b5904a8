-- ===== src/Agent/Discipline/Install.antt =====
-- The stages from the gate to the commit: from an accepted artifact to what holds between updates.
use unoq_ota.Prelude.{◌≡◌, refl, Bool, true, false, ◌&&◌, Option, none, some, List, String}
use unoq_ota.Outcome.{Outcome, ok, raised, flash_error, os_error}
use unoq_ota.Python.{Python, IsLawful, Fields}
use unoq_ota.Artifact.{Bytes, SketchArtifact}
use unoq_ota.State.{State, Phase}
use unoq_ota.Interfaces.{Update}
use unoq_ota.Agent.World.{
  World, Env, Event, FileName, current, previous, staged, read, copy, unlink, done, installed,
  router_stopped, router_started, host_applied, host_rolled_back, host_restarted, host_probed,
  resident_read, flash_gate_asked, log,
}
use unoq_ota.Agent.Cycle.{lift, call, ◌>>=◌}
use unoq_ota.Agent.Cycle.Moves.{
  Moves, Moves-pure, Moves-lift, Moves-raise, Moves-caught, Moves-if, Moves-swallow, Moves-bind,
  Moves-bind_to, Moves-of,
}
use unoq_ota.Agent.Store.{clear, put, with_attempt, record_attempt}
use unoq_ota.Agent.Install.{
  with_commit, host_block, copy_bytes, atomic_copy, copy_images, after_copy, commit, restart_host,
  check_host, swap_host, after_swap_host, apply_host_block, health_stage, flash_update, after_flash,
  flash_stage, drifted, after_unlink, discard_believed, drift_stage, after_gate, gate_stage,
}
use unoq_ota.Agent.Discipline.{
  Point, between, accepted, permitted, counted, flashed, Discipline, Holds,
}
use unoq_ota.Agent.Discipline.Steps.{
  Holds-log, Holds-settles, Moves-call, Moves-perform, Moves-load, Moves-save, Moves-update,
  Moves-set_phase,
}
use unoq_ota.Agent.Discipline.Rollback.{
  Moves-report, Moves-is_file, Moves-is_healthy, Moves-concludes, Moves-rollback,
}

module _ {py : Python} (law : IsLawful py) {env : Env py} {P : Point → State → List Event → Type 0}
    (d : Discipline env P) where
  Moves-atomic_copy :
      (p : Point) (m n : FileName) → Moves (Holds (P p)) (Holds (P p)) (atomic_copy env m n)
  unfolding atomic_copy
  Moves-atomic_copy p m n = record { at = λ w h. copied (read m w.files) w h }
    where
      copied :
          (b : Option Bytes) (w : World py) → Holds (P p) w → Holds (P p) (copy_bytes env m n b w).1
      copied none w h = Holds-log law d p w (done (copy m n) false) refl h
      copied (some b) w h = (Moves-perform law d p (copy m n) refl).at w h

  Moves-copy_images : (p : Point) → Moves (Holds (P p)) (Holds (P p)) (copy_images env)
  unfolding copy_images
  Moves-copy_images p = Moves-bind _ _ (Moves-is_file law d p current) λ had.
      Moves-bind _ _ (Moves-if had _ _ (Moves-atomic_copy p current previous) (Moves-pure tt))
        λ _. Moves-bind _ _ (Moves-atomic_copy p staged current) (λ _. Moves-pure had)

  Moves-after_copy :
      (u : Update) (r : Outcome Bool)
      → Moves (Holds (P (flashed u))) (Holds (P between)) (after_copy env u r)
  unfolding after_copy
  Moves-after_copy u (raised e) =
      Moves-of _ (Moves-concludes law d (flashed u) u _ _ _ _ clear)
        (Holds-settles law d (flashed u))
  Moves-after_copy u (ok had) = Moves-load law d (flashed u) _ λ s.
      Moves-bind _ _
        (Moves-swallow _ (
          Moves-save law d (flashed u) between s (with_commit u had s) (d.commits u had s)
            (λ w e failed h. d.settles (flashed u) s w.trace h)))
        λ _. Moves-bind _ _ (Moves-report law d between u _ _) (λ _. Moves-pure _)

  Moves-commit : (u : Update) → Moves (Holds (P (flashed u))) (Holds (P between)) (commit env u)
  unfolding commit
  Moves-commit u =
      Moves-bind_to _ _ (Moves-caught _ (Moves-copy_images (flashed u)))
        (Holds-settles law d (flashed u)) (Moves-after_copy u)

  Moves-restart_host :
      (p : Point) (restart : Option (World py → Outcome (Unit {0})))
      → Moves (Holds (P p)) (Holds (P p)) (restart_host env restart)
  unfolding restart_host
  Moves-restart_host p none = Moves-pure tt
  Moves-restart_host p (some restart) = Moves-call law d p (λ _. host_restarted) restart (λ r. refl)

  Moves-check_host :
      (p : Point) (healthy : Option (World py → Outcome Bool))
      → Moves (Holds (P p)) (Holds (P p)) (check_host env healthy)
  unfolding check_host
  Moves-check_host p none = Moves-pure tt
  Moves-check_host p (some healthy) =
      Moves-bind _ _ (Moves-call law d p (λ _. host_probed) healthy (λ r. refl)) (λ b. Moves-lift _)

  Moves-after_swap_host :
      (p : Point) (r : Outcome (Unit {0}))
      → Moves (Holds (P p)) (Holds (P p)) (after_swap_host env r)
  unfolding after_swap_host
  Moves-after_swap_host p (ok t) = Moves-pure true
  Moves-after_swap_host p (raised e) =
      Moves-bind _ _ (Moves-swallow _ (Moves-call law d p (λ _. host_rolled_back) _ (λ r. refl)))
        (λ _. Moves-pure false)

  Moves-apply_host_block :
      (p : Point) (b : Option Fields) → Moves (Holds (P p)) (Holds (P p)) (apply_host_block env b)
  unfolding apply_host_block swap_host
  Moves-apply_host_block p none = Moves-pure true
  Moves-apply_host_block p (some b) =
      Moves-bind _ _
        (Moves-caught _ (
          Moves-bind _ _ (Moves-call law d p (λ _. host_applied) _ (λ r. refl)) λ _.
            Moves-bind _ _ (Moves-restart_host p env.host_restart)
              λ _. Moves-check_host p env.host_health))
        (Moves-after_swap_host p)

  pub Moves-health_stage :
      (u : Update) → Moves (Holds (P (flashed u))) (Holds (P between)) (health_stage env u)
  unfolding health_stage
  Moves-health_stage u = Moves-bind_to _ _ (Moves-set_phase law d p _ (put u.version)) over λ _.
      Moves-bind_to _ _ (Moves-is_healthy law d p u.version) over λ mcu_ok.
        Moves-bind_to _ _
          (Moves-if mcu_ok _ _ (Moves-apply_host_block p (host_block u)) (Moves-pure true)) over
          λ host_ok.
            Moves-if (mcu_ok && host_ok) _ _ (Moves-commit u)
              (Moves-of _ (Moves-rollback law d u) over)
    where
      p : Point
      p = flashed u

      over : (w : World py) → Holds (P (flashed u)) w → Holds (P between) w
      over = Holds-settles law d (flashed u)

  Moves-flash_update :
      (u : Update) (a : SketchArtifact)
      → Moves (Holds (P (counted u a))) (Holds (P (flashed u))) (flash_update env u a)
  unfolding flash_update ◌>>=◌
  Moves-flash_update u a = record {
    at = λ w h.
        let stopped = log router_stopped w in
        let begun = log (installed u.version a) stopped in
        let h1 = Holds-log law d (counted u a) w router_stopped refl h in
        let h2 : Holds (P (flashed u)) begun = record {
          state = h1.state;
          loads = h1.loads;
          holds = d.installs u a h1.state stopped.trace h1.holds;
        } in
        Holds-log law d (flashed u) begun router_started refl h2;
  }

  Moves-after_flash :
      (u : Update) (r : Outcome (Unit {0}))
      → Moves (Holds (P (flashed u))) (Holds (P between)) (after_flash env u r)
  unfolding after_flash
  Moves-after_flash u (ok t) = Moves-health_stage u
  Moves-after_flash u (raised (flash_error m)) =
      Moves-of _ (Moves-concludes law d (flashed u) u _ _ _ _ clear)
        (Holds-settles law d (flashed u))
  Moves-after_flash u (raised e) = Moves-of _ (Moves-raise e) (Holds-settles law d (flashed u))

  Moves-flash_stage :
      (u : Update) (a : SketchArtifact)
      → Moves (Holds (P (permitted u a))) (Holds (P between)) (flash_stage env u a)
  unfolding flash_stage
  Moves-flash_stage u a = Moves-bind_to _ _ (Moves-swallow _ count) over λ _.
      Moves-bind_to _ _ (Moves-set_phase law d (counted u a) _ (put u.version)) over λ _.
        Moves-bind_to _ _ (Moves-report law d (counted u a) u _ _) over λ _.
          Moves-bind_to _ _ (Moves-caught _ (Moves-flash_update u a))
            (Holds-settles law d (flashed u)) (Moves-after_flash u)
    where
      over : (w : World py) → Holds (P (counted u a)) w → Holds (P between) w
      over = Holds-settles law d (counted u a)

      count :
          Moves (Holds (P (permitted u a))) (Holds (P (counted u a))) (record_attempt env u.version)
      count =
          unfold record_attempt in
          Moves-update law d (permitted u a) (counted u a) (λ s. with_attempt s u.version)
            (d.counts u a) (d.misses u a)

  Moves-drifted : (p : Point) → Moves (Holds (P p)) (Holds (P p)) (drifted env)
  unfolding drifted
  Moves-drifted p = Moves-call law d p (λ _. resident_read) _ (λ r. refl)

  Moves-after_unlink :
      (p : Point) (r : Outcome (Unit {0})) → Moves (Holds (P p)) (Holds (P p)) (after_unlink env r)
  unfolding after_unlink
  Moves-after_unlink p (ok t) = Moves-pure tt
  Moves-after_unlink p (raised (os_error m)) = Moves-pure tt
  Moves-after_unlink p (raised e) = Moves-raise e

  Moves-discard_believed :
      (p : Point) (b : Bool) → Moves (Holds (P p)) (Holds (P p)) (discard_believed env b)
  unfolding discard_believed
  Moves-discard_believed p false = Moves-pure tt
  Moves-discard_believed p true =
      Moves-bind _ _ (Moves-caught _ (Moves-perform law d p (unlink current) refl))
        (Moves-after_unlink p)

  Moves-drift_stage :
      (u : Update) (a : SketchArtifact)
      → Moves (Holds (P (permitted u a))) (Holds (P between)) (drift_stage env u a)
  unfolding drift_stage
  Moves-drift_stage u a = Moves-bind_to _ _ (Moves-drifted p) over λ drift.
      Moves-bind_to _ _ (Moves-is_file law d p current) over λ believed.
        Moves-bind_to _ _ (Moves-discard_believed p (drift && believed)) over
          λ _. Moves-flash_stage u a
    where
      p : Point
      p = permitted u a

      over : (w : World py) → Holds (P (permitted u a)) w → Holds (P between) w
      over = Holds-settles law d (permitted u a)

  after_answer :
      (u : Update) (a : SketchArtifact) (r : Outcome (Bool × String)) (w : World py)
      → env.no_flash ≡ false
      → Holds (P (accepted u a)) w
      → Holds (P between) (((lift r) >>= after_gate env u a) (log (flash_gate_asked r) w)).1
  unfolding after_gate ◌>>=◌
  after_answer u a (raised e) w wet h =
      Holds-settles law d (accepted u a) _
        (Holds-log law d (accepted u a) w (flash_gate_asked (raised e)) refl h)
  after_answer u a (ok (true, reason)) w wet h =
      (Moves-drift_stage u a).at (log (flash_gate_asked (ok (true, reason))) w) (record {
        state = h.state;
        loads = h.loads;
        holds = d.permits u a h.state w.trace reason wet h.holds;
      })
  after_answer u a (ok (false, reason)) w wet h =
      (Moves-bind_to _ _ (Moves-report law d (accepted u a) u _ reason) over
          (λ _. Moves-of _ (Moves-pure Phase.staged) over)).at
        (log answer w) (Holds-log law d (accepted u a) w answer refl h)
    where
      answer : Event
      answer = flash_gate_asked (ok (false, reason))

      over : (w : World py) → Holds (P (accepted u a)) w → Holds (P between) w
      over = Holds-settles law d (accepted u a)

  pub Moves-gate_stage :
      (u : Update) (a : SketchArtifact)
      → env.no_flash ≡ false
      → Moves (Holds (P (accepted u a))) (Holds (P between)) (gate_stage env u a)
  unfolding gate_stage
  Moves-gate_stage u a wet =
      Moves-bind_to _ _ (Moves-set_phase law d (accepted u a) _ (put u.version))
        (Holds-settles law d (accepted u a)) λ _. answered
    where
      answered :
          Moves
            (Holds (P (accepted u a)))
            (Holds (P between))
            (call flash_gate_asked env.may_flash >>= after_gate env u a)
      answered = unfold ◌>>=◌ in record { at = λ w h. after_answer u a (env.may_flash w) w wet h }
