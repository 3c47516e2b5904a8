-- ===== src/Agent/Discipline/Rollback.antt =====
-- The rollback of `run_once`, under a discipline.
use unoq_ota.Prelude.{refl, Option, none, some, List, [], ◌∷◌, String, ◌==◌}
use unoq_ota.Outcome.{Outcome, ok, raised}
use unoq_ota.Python.{Python, IsLawful}
use unoq_ota.State.{State, Phase}
use unoq_ota.Interfaces.{Update, Status}
use unoq_ota.Agent.World.{
  World, Env, Event, FileName, reported, loaded, health_probed, alive_probed,
}
use unoq_ota.Agent.Cycle.{pure, ◌>>=◌}
use unoq_ota.Agent.Cycle.Moves.{
  Moves, Moves-pure, Moves-caught, Moves-if, Moves-swallow, Moves-bind,
}
use unoq_ota.Agent.Store.{Label, clear, put, load_state, set_phase}
use unoq_ota.Agent.Rollback.{
  report, is_file, is_healthy, alive_version, wait_alive, judge, load_image, flash_candidate,
  after_flash_candidate, restore, try_candidates, rollback, rollback_candidates,
}
use unoq_ota.Agent.Discipline.{Point, flashed, Discipline, Holds}
use unoq_ota.Agent.Discipline.Steps.{Moves-call, Moves-set_phase, Moves-blame}

module _ {py : Python} (law : IsLawful py) {env : Env py} {P : Point → State → List Event → Type 0}
    (d : Discipline env P) where
  pub Moves-report :
      (p : Point) (u : Update) (status : Status) (detail : String)
      → Moves (Holds (P p)) (Holds (P p)) (report env u status detail)
  unfolding report
  Moves-report p u status detail =
      Moves-call law d p (λ _. reported u.version status detail) _ (λ r. refl)

  pub Moves-load_state : (p : Point) → Moves (Holds (P p)) (Holds (P p)) (load_state env)
  Moves-load_state p = record { at = λ w h. h }

  pub Moves-is_file : (p : Point) (n : FileName) → Moves (Holds (P p)) (Holds (P p)) (is_file env n)
  Moves-is_file p n = record { at = λ w h. h }

  pub Moves-load_image :
      (p : Point) (n : FileName) → Moves (Holds (P p)) (Holds (P p)) (load_image env n)
  Moves-load_image p n = Moves-call law d p (loaded n) _ (λ r. refl)

  pub Moves-is_healthy :
      (p : Point) (v : String) → Moves (Holds (P p)) (Holds (P p)) (is_healthy env v)
  unfolding is_healthy
  Moves-is_healthy p v =
      Moves-bind _ _ (Moves-caught _ (Moves-call law d p (health_probed v) _ (λ r. refl)))
        (λ r. Moves-pure _)

  -- report, set a phase, and return
  pub Moves-concludes :
      (p : Point) (u : Update) (status : Status) (detail : String) (phase result : Phase)
      (label : Label)
      → Moves
          (Holds (P p))
          (Holds (P p))
          (report env u status detail >>= λ _. set_phase env phase label >>= λ _. pure result)
  Moves-concludes p u status detail phase result label =
      Moves-bind _ _ (Moves-report p u status detail)
        λ _. Moves-bind _ _ (Moves-set_phase law d p phase label) (λ _. Moves-pure result)

  Moves-alive_version :
      (u : Update) (f : Option (World py → String → Outcome (Option String))) (v : String)
      → Moves (Holds (P (flashed u))) (Holds (P (flashed u))) (alive_version env f v)
  unfolding alive_version
  Moves-alive_version u none v =
      Moves-bind _ _ (Moves-call law d (flashed u) (health_probed v) _ (λ r. refl))
        (λ b. Moves-pure _)
  Moves-alive_version u (some f) v =
      Moves-bind _ _ (Moves-call law d (flashed u) (alive_probed v) _ (λ r. refl))
        (λ o. Moves-pure _)

  Moves-wait_alive :
      (u : Update) (v : String)
      → Moves (Holds (P (flashed u))) (Holds (P (flashed u))) (wait_alive env v)
  unfolding wait_alive
  Moves-wait_alive u v =
      Moves-bind _ _ (Moves-caught _ (Moves-alive_version u env.wait_alive v)) (λ r. Moves-pure _)

  Moves-judge :
      (u : Update) (n : FileName) (reported : Option String)
      → Moves (Holds (P (flashed u))) (Holds (P (flashed u))) (judge env u n reported)
  unfolding judge
  Moves-judge u n none = Moves-pure none
  Moves-judge u n (some v) = Moves-if (v == u.version) _ _ (Moves-pure none) (
      Moves-bind _ _ (Moves-bind _ _ (Moves-load_state (flashed u)) (λ s. Moves-pure _))
        (λ e. Moves-pure _))

  Moves-flash_candidate :
      (u : Update) (n : FileName)
      → Moves (Holds (P (flashed u))) (Holds (P (flashed u))) (flash_candidate env n)
  unfolding flash_candidate
  Moves-flash_candidate u n = Moves-bind _ _ (Moves-load_image (flashed u) n) λ a. record {
    at = λ w h. record {
      state = h.state;
      loads = h.loads;
      holds = d.restores u h.state w.trace n a h.holds;
    };
  }

  Moves-after_flash_candidate :
      (u : Update) (n : FileName) (r : Outcome (Unit {0}))
      → Moves (Holds (P (flashed u))) (Holds (P (flashed u))) (after_flash_candidate env u n r)
  unfolding after_flash_candidate
  Moves-after_flash_candidate u n (raised e) = Moves-pure none
  Moves-after_flash_candidate u n (ok t) =
      Moves-bind _ _ (Moves-wait_alive u u.version) (Moves-judge u n)

  Moves-restore :
      (u : Update) (n : FileName)
      → Moves (Holds (P (flashed u))) (Holds (P (flashed u))) (restore env u n)
  unfolding restore
  Moves-restore u n = Moves-bind _ _ (Moves-is_file (flashed u) n) λ present.
      Moves-if present _ _
        (Moves-bind _ _ (Moves-caught _ (Moves-flash_candidate u n))
          (Moves-after_flash_candidate u n))
        (Moves-pure none)

  Moves-try_candidates :
      (u : Update) (names : List FileName)
      → Moves (Holds (P (flashed u))) (Holds (P (flashed u))) (try_candidates env u names)
  unfolding try_candidates
  Moves-try_candidates u [] = Moves-concludes (flashed u) u _ _ _ _ clear
  Moves-try_candidates u (n ∷ names) = Moves-bind _ _ (Moves-restore u n) (elim [
    | none ↦ Moves-try_candidates u names
    | some v ↦ Moves-concludes (flashed u) u _ _ _ _ clear
  ])

  pub Moves-rollback :
      (u : Update) → Moves (Holds (P (flashed u))) (Holds (P (flashed u))) (rollback env u)
  unfolding rollback
  Moves-rollback u = Moves-bind _ _ (Moves-set_phase law d (flashed u) _ (put u.version)) λ _.
      Moves-bind _ _ (Moves-swallow _ (Moves-blame law d u))
        λ _. Moves-try_candidates u rollback_candidates
