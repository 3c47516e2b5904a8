-- ===== src/Agent/Discipline/Steps.antt =====
-- The primitive actions of a cycle, under a discipline.
use unoq_ota.Prelude.{◌≡◌, refl, Bool, true, false, List, inl, inr}
use unoq_ota.Outcome.{Outcome, raised, Raised, Outcome-cases}
use unoq_ota.Python.{Python, IsLawful, Value}
use unoq_ota.State.{State, Phase}
use unoq_ota.State.Roundtrip.{load-save}
use unoq_ota.Agent.World.{
  World, Env, Event, FileName, Operation, save, unlink, copy, make_dir, done, fetched, log, effect,
}
use unoq_ota.Agent.Cycle.{Cycle, call, perform, ◌>>=◌}
use unoq_ota.Agent.Cycle.Moves.{Moves, Moves-swallow}
use unoq_ota.Agent.Store.{load_state, save_state, set_phase, poison, labelled, Label, with_poisoned}
use unoq_ota.Agent.Fetch.{fetch_to}
use unoq_ota.Interfaces.{Update}
use unoq_ota.Agent.Discipline.{Point, between, judged, flashed, Discipline, Holds, Knows, is_flash}

-- Operations other than `save` leave the state file alone.
abbrev spares_state : Operation → Bool
spares_state (save s) = false
spares_state _ = true

module _ {py : Python} (law : IsLawful py) {env : Env py} {P : Point → State → List Event → Type 0}
    (d : Discipline env P) where
  pub Holds-log :
      (p : Point) (w : World py) (e : Event)
      → is_flash e ≡ false
      → Holds (P p) w
      → Holds (P p) (log e w)
  Holds-log p w e q h = record {
    state = h.state;
    loads = h.loads;
    holds = d.quiet p h.state w.trace e q h.holds;
  }

  pub Holds-settles : (p : Point) (w : World py) → Holds (P p) w → Holds (P between) w
  Holds-settles p w h = record {
    state = h.state;
    loads = h.loads;
    holds = d.settles p h.state w.trace h.holds;
  }

  pub Moves-call :
      {A : Type 0} (p : Point) (event : Outcome A → Event) (f : World py → Outcome A)
      → ((r : Outcome A) → is_flash (event r) ≡ false)
      → Moves (Holds (P p)) (Holds (P p)) (call event f)
  Moves-call p event f q = record { at = λ w h. Holds-log p w (event (f w)) (q (f w)) h }

  pub Moves-fetch_to :
      (p : Point) (url : Value) (name : FileName)
      → Moves (Holds (P p)) (Holds (P p)) (fetch_to env url name)
  Moves-fetch_to p url name = record {
    at = λ w h. record {
      state = h.state;
      loads = h.loads;
      holds = d.quiet p h.state w.trace (fetched url name) refl h.holds;
    };
  }

  Holds-effect :
      (p : Point) (op : Operation) (w : World py)
      → spares_state op ≡ true
      → Holds (P p) w
      → Holds (P p) (effect op w)
  Holds-effect p (save s) w e h = absurd (cc e)
  Holds-effect p (unlink n) w e h = record { state = h.state; loads = h.loads; holds = h.holds }
  Holds-effect p (copy m n) w e h = record { state = h.state; loads = h.loads; holds = h.holds }
  Holds-effect p make_dir w e h = h

  pub Moves-perform :
      (p : Point) (op : Operation)
      → spares_state op ≡ true
      → Moves (Holds (P p)) (Holds (P p)) (perform env op)
  unfolding perform
  Moves-perform p op e = record {
    at = λ w h. elim (Outcome-cases (env.io w op)) [
      | inl (t, done_) ↦
          rw done_ (Holds-log p (effect op w) (done op true) refl (Holds-effect p op w e h))
      | inr (x, failed) ↦ rw failed (Holds-log p w (done op false) refl h)
    ];
  }

  -- what is read is the state of the device
  pub Moves-load :
      {A : Type 0} {R : World py → Type 0} (p : Point) (g : State → Cycle py A)
      → ((s : State) → Moves (Knows (P p) s) R (g s))
      → Moves (Holds (P p)) R (load_state env >>= g)
  unfolding ◌>>=◌
  Moves-load p g k = record {
    at = λ w h. rw h.loads ((k h.state).at w (record { loads = h.loads; holds = h.holds }));
  }

  pub Moves-save :
      (p q : Point) (s s' : State)
      → ((t : List Event) → P p s t → P q s' t)
      → ((w : World py) (e : Raised)
          → env.io w (save s') ≡ raised e
          → P p s w.trace
          → P q s w.trace)
      → Moves (Knows (P p) s) (Holds (P q)) (save_state env s')
  unfolding perform
  Moves-save p q s s' saved missed = record {
    at = λ w h. elim (Outcome-cases (env.io w (save s'))) [
      | inl (t, done_) ↦ rw done_ (record {
        state = s';
        loads = load-save py law s';
        holds = d.quiet q s' w.trace (done (save s') true) refl (saved w.trace h.holds);
      })
      | inr (e, failed) ↦ rw failed (record {
        state = s;
        loads = h.loads;
        holds = d.quiet q s w.trace (done (save s') false) refl (missed w e failed h.holds);
      })
    ];
  }

  -- read, change and write back the state
  pub Moves-update :
      (p q : Point) (f : State → State)
      → ((s : State) (t : List Event) → P p s t → P q (f s) t)
      → ((s : State) (w : World py) (e : Raised)
          → env.io w (save (f s)) ≡ raised e
          → P p s w.trace
          → P q s w.trace)
      → Moves (Holds (P p)) (Holds (P q)) (load_state env >>= λ s. save_state env (f s))
  Moves-update p q f saved missed =
      Moves-load p (λ s. save_state env (f s)) λ s. Moves-save p q s (f s) (saved s) (missed s)

  pub Moves-set_phase :
      (p : Point) (phase : Phase) (label : Label)
      → Moves (Holds (P p)) (Holds (P p)) (set_phase env phase label)
  unfolding set_phase
  Moves-set_phase p phase label = Moves-swallow _ (
      Moves-update p p (labelled env phase label) (λ s t h. d.labels p s t phase label h)
        (λ s w e failed h. h))

  pub Moves-poison :
      (u : Update) → Moves (Holds (P (judged u))) (Holds (P (judged u))) (poison env u.version)
  unfolding poison
  Moves-poison u =
      Moves-update (judged u) (judged u) (λ s. with_poisoned s u.version) (d.poisons u)
        (λ s w e failed h. h)

  pub Moves-blame :
      (u : Update) → Moves (Holds (P (flashed u))) (Holds (P (flashed u))) (poison env u.version)
  unfolding poison
  Moves-blame u =
      Moves-update (flashed u) (flashed u) (λ s. with_poisoned s u.version) (d.blames u)
        (λ s w e failed h. h)
