-- ===== src/Agent/Discipline/Fetch.antt =====
-- The stages before verification, and a whole cycle: what holds between updates holds after it.
use unoq_ota.Prelude.{
  ℕ, zero, suc, pos, leb_ℤ, ◌≡◌, refl, Bool, true, false, Option, none, some, List, String,
  contains, ◌⊎◌, inl, inr, Bool-cases,
}
use unoq_ota.Outcome.{Outcome, ok, raised, preflight_error}
use unoq_ota.Python.{Python, IsLawful, Fields, str, as_str, get_field}
use unoq_ota.State.{State, Phase, max_attempts}
use unoq_ota.Interfaces.{Update}
use unoq_ota.Agent.World.{
  World, Env, Event, staged, staged_host, make_dir, checked, dns_ensured, clock_read, disk_read,
  fetch_gate_asked,
}
use unoq_ota.Agent.Cycle.{◌>>=◌}
use unoq_ota.Agent.Cycle.Moves.{
  Moves, Moves-pure, Moves-lift, Moves-raise, Moves-caught, Moves-if, Moves-swallow, Moves-bind,
  Moves-bind_to, Moves-of,
}
use unoq_ota.Agent.Store.{put, attempts_in, with_poisoned, poison, is_poisoned, attempts_for}
use unoq_ota.Agent.Install.{host_block}
use unoq_ota.Agent.Fetch.{
  artifact_url, text_url, watermark, after_host_download, download_host, host_stage, after_download,
  download_stage, fetch_gate, check_space, preflight_checks, after_preflight, preflight_stage,
  up_to_date, compare_sequence, reject_capped, is_capped, consider, run_once, run_cycles,
}
use unoq_ota.Agent.Discipline.{Point, between, considered, Discipline, Holds, Knows}
use unoq_ota.Agent.Discipline.Steps.{
  Holds-settles, Moves-call, Moves-perform, Moves-save, Moves-set_phase, Moves-fetch_to,
}
use unoq_ota.Agent.Discipline.Rollback.{Moves-report, Moves-concludes}
use unoq_ota.Agent.Discipline.Verification.{Moves-defer, Moves-unlink_staged, Moves-verify_stage}

module _ {py : Python} (law : IsLawful py) {env : Env py} {P : Point → State → List Event → Type 0}
    (d : Discipline env P) where
  Moves-host_stage :
      (u : Update) (block : Option Fields)
      → Moves (Holds (P (considered u))) (Holds (P between)) (host_stage env u block)
  unfolding host_stage download_host after_host_download
  Moves-host_stage u none = Moves-verify_stage law d u
  Moves-host_stage u (some block) = with_url (text_url (as_str (get_field "url" block)))
    where
      downloaded :
          (r : Outcome (Unit {0}))
          → Moves (Holds (P (considered u))) (Holds (P between)) (after_host_download env u r)
      downloaded (ok t) = Moves-verify_stage law d u
      downloaded (raised e) = Moves-defer law d (considered u) u _ _

      with_url :
          (url : Option String)
          → Moves (Holds (P (considered u))) (Holds (P between)) (download_host env u url)
      with_url none = Moves-defer law d (considered u) u _ _
      with_url (some url) =
          Moves-bind_to _ _
            (Moves-caught _ (Moves-fetch_to law d (considered u) (str url) staged_host))
            (Holds-settles law d (considered u)) downloaded

  Moves-after_download :
      (u : Update) (r : Outcome (Unit {0}))
      → Moves (Holds (P (considered u))) (Holds (P between)) (after_download env u r)
  unfolding after_download
  Moves-after_download u (ok t) = Moves-host_stage u (host_block u)
  Moves-after_download u (raised e) = Moves-defer law d (considered u) u _ _

  Moves-download_stage :
      (u : Update) → Moves (Holds (P (considered u))) (Holds (P between)) (download_stage env u)
  unfolding download_stage
  Moves-download_stage u =
      Moves-bind_to _ _ (Moves-set_phase law d (considered u) _ (put u.version)) over λ _.
        Moves-bind_to _ _ (Moves-report law d (considered u) u _ _) over λ _.
          Moves-bind_to _ _
            (Moves-caught _ (
              Moves-bind _ _ (Moves-lift (artifact_url u.manifest))
                (λ url. Moves-fetch_to law d (considered u) url staged)))
            over (Moves-after_download u)
    where
      over : (w : World py) → Holds (P (considered u)) w → Holds (P between) w
      over = Holds-settles law d (considered u)

  Moves-fetch_gate :
      (f : Option (World py → Outcome (Bool × String))) (u : Update)
      → Moves (Holds (P (considered u))) (Holds (P between)) (fetch_gate env f u)
  unfolding fetch_gate
  Moves-fetch_gate none u = Moves-download_stage u
  Moves-fetch_gate (some f) u =
      Moves-bind_to _ _ (Moves-call law d (considered u) (λ _. fetch_gate_asked) f (λ r. refl))
        (Holds-settles law d (considered u))
        λ answer.
          Moves-if answer.0 _ _ (Moves-download_stage u) (Moves-defer law d (considered u) u _ _)

  Moves-check_space :
      (p : Point) (needed : ℕ) → Moves (Holds (P p)) (Holds (P p)) (check_space env needed)
  unfolding check_space
  Moves-check_space p needed = Moves-call law d p (λ _. disk_read) _ (λ r. refl)

  Moves-preflight_checks :
      (p : Point) (u : Update) → Moves (Holds (P p)) (Holds (P p)) (preflight_checks env u)
  unfolding preflight_checks
  Moves-preflight_checks p u =
      Moves-bind _ _ (Moves-call law d p (λ _. clock_read) _ (λ r. refl)) λ _.
        Moves-bind _ _ (Moves-check_space p _)
          λ _. Moves-if _ _ _ (Moves-pure tt) (Moves-check_space p _)

  Moves-after_preflight :
      (u : Update) (r : Outcome (Unit {0}))
      → Moves (Holds (P (considered u))) (Holds (P between)) (after_preflight env u r)
  unfolding after_preflight
  Moves-after_preflight u (ok t) = Moves-fetch_gate env.may_fetch u
  Moves-after_preflight u (raised (preflight_error m)) = Moves-defer law d (considered u) u _ m
  Moves-after_preflight u (raised e) =
      Moves-of _ (Moves-raise e) (Holds-settles law d (considered u))

  Moves-preflight_stage :
      (u : Update) → Moves (Holds (P (considered u))) (Holds (P between)) (preflight_stage env u)
  unfolding preflight_stage
  Moves-preflight_stage u =
      Moves-bind_to _ _ (Moves-perform law d (considered u) make_dir refl)
        (Holds-settles law d (considered u))
        λ _.
          Moves-bind_to _ _ (Moves-caught _ (Moves-preflight_checks (considered u) u))
            (Holds-settles law d (considered u)) (Moves-after_preflight u)

  Moves-up_to_date : (u : Update) → Moves (Holds (P between)) (Holds (P between)) (up_to_date env u)
  unfolding up_to_date
  Moves-up_to_date u =
      Moves-bind _ _ (Moves-unlink_staged law d between)
        λ _. Moves-bind _ _ (Moves-report law d between u _ _) (λ _. Moves-pure _)

  Moves-reject_capped :
      (u : Update) (b : Bool) (s : State)
      → (contains s.poisoned u.version ≡ true)
        ⊎ (leb_ℤ (pos max_attempts) (attempts_in s u.version) ≡ true)
      → Moves (Knows (P between) s) (Holds (P between)) (reject_capped env u b)
  unfolding reject_capped
  Moves-reject_capped u b s capped =
      Moves-bind _ _ (Moves-swallow _ poisoned)
        λ _. Moves-concludes law d between u _ _ _ _ (put u.version)
    where
      poisoned : Moves (Knows (P between) s) (Holds (P between)) (poison env u.version)
      poisoned =
          unfold poison ◌>>=◌ in
          record {
            at = λ w k. rw k.loads (
                (Moves-save law d between between s (with_poisoned s u.version)
                    (λ t h. d.caps u s t capped h) (λ w e failed h. h)).at
                  w k);
          }

  -- The three guards, on the state that the file holds.
  at_guards :
      (u : Update) (w : World py) (s : State)
      → Knows (P between) s w
      → Holds (P between) (consider env (some u) w).1
  unfolding consider is_poisoned is_capped attempts_for compare_sequence ◌>>=◌
  at_guards u w s k = rw k.loads (elim (Bool-cases (contains s.poisoned u.version)) [
    | inl bad ↦ rw bad ((Moves-reject_capped u true s (inl bad)).at w k)
    | inr good ↦
        rw (good, k.loads)
          (elim (Bool-cases (leb_ℤ (pos 2) (attempts_in s u.version))) [
            | inl capped ↦ rw capped ((Moves-reject_capped u false s (inr capped)).at w k)
            | inr few ↦
                rw (few, k.loads)
                  (elim (Bool-cases (leb_ℤ u.sequence (watermark s))) [
                    | inl old ↦ rw old ((Moves-up_to_date u).at w here)
                    | inr new ↦ rw new (
                        (Moves-preflight_stage u).at w (record {
                          state = s;
                          loads = k.loads;
                          holds = d.enters u s w.trace good few new k.holds;
                        }))
                  ])
          ])
  ])
    where
      here : Holds (P between) w
      here = record { state = s; loads = k.loads; holds = k.holds }

  Moves-consider :
      (o : Option Update) → Moves (Holds (P between)) (Holds (P between)) (consider env o)
  Moves-consider none = unfold consider in Moves-pure Phase.idle
  Moves-consider (some u) = record {
    at = λ w h. at_guards u w h.state (record { loads = h.loads; holds = h.holds });
  }

  -- A cycle keeps what holds between updates.
  pub Moves-run_once : Moves (Holds (P between)) (Holds (P between)) (run_once env)
  unfolding run_once
  Moves-run_once =
      Moves-bind _ _ (Moves-swallow _ (Moves-call law d between (λ _. dns_ensured) _ (λ r. refl)))
        λ _. Moves-bind _ _ (Moves-call law d between (λ _. checked) _ (λ r. refl)) Moves-consider

  -- And so do cycles without end, whatever they raise.
  pub Holds-run_cycles :
      (n : ℕ) (w : World py) → Holds (P between) w → Holds (P between) (run_cycles env n w)
  unfolding run_cycles
  Holds-run_cycles zero w h = h
  Holds-run_cycles (suc n) w h = Holds-run_cycles n (run_once env w).1 (Moves-run_once.at w h)
