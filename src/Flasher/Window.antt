-- ===== src/Flasher/Window.antt =====
-- The calls that `router_stopped` (unoq_ota/flasher.py) makes around its body.
use unoq_ota.Prelude.{
  pos, ◌≡◌, ◌↔◌, refl, ap, sym, ◌⊎◌, inl, inr, String, true, false, List, ◌∷◌, contains, Bool-cases,
}
use unoq_ota.Outcome.{Outcome, ok, raised}
use unoq_ota.Flasher.{
  Ran, finished, Systemd, Call, stop, start, body, list_dependencies, succeeded, candidates_in,
  ask_active, running_dependents, finally, restart, router_stopped,
}
use unoq_ota.Flasher.Sketch.{is_zero-pos}
use unoq_ota.Flasher.Dependents.{
  IsListed, IsReported, asked, candidates_in-IsListed, ask_active-asked, ask_active-IsReported,
}

-- systemctl ran to code 0.
abbrev pub HasSucceeded : Ran → Type 0
HasSucceeded r = (out : String) × (err : String) × (r ≡ finished (pos 0) out err)

succeeded-HasSucceeded : (sd : Systemd) (r : Ran) → succeeded sd r ≡ true → HasSucceeded r
succeeded-HasSucceeded sd (finished code out err) h =
    (out, err, ap (λ c. finished c out err) (is_zero-pos code h))
succeeded-HasSucceeded sd r h = absurd (cc h)

HasSucceeded-succeeded : (sd : Systemd) (r : Ran) → HasSucceeded r → succeeded sd r ≡ true
HasSucceeded-succeeded sd r (out, err, e) = rw e refl

module _ {A : Type 0} (sd : Systemd) (act : List Call → Outcome A) where
  -- After these calls: the stop, the body, and the start of these services where the stop succeeded.
  abbrev pub Restores : List Call → List String → Outcome A × List Call → Type 0
  Restores t restore result =
      (HasSucceeded (sd.run t stop)
        × (result ≡ (act (stop ∷ t), start (sd.unit ∷ restore) ∷ body ∷ stop ∷ t)))
      ⊎ ((¬ HasSucceeded (sd.run t stop)) × (result ≡ (act (stop ∷ t), body ∷ stop ∷ t)))

  -- The whole of the window: `names` are asked about and `restore` is what comes back.
  pub record IsWindow (t : List Call) (result : Outcome A × List Call) : Type 0 where
    pub names : List String
    pub restore : List String
    pub are_listed : (n : String) → (contains names n ≡ true) ↔ IsListed sd t n
    pub are_reported : (n : String) → (contains restore n ≡ true) ↔ IsReported sd t names n
    pub calls : Restores (asked sd names t) restore result

  -- Whatever the body does, `finally` makes the last calls and gives the body's outcome.
  finally-last :
      (r : Outcome A) (t : List Call) (last : List Call → List Call)
      → finally sd act (r, t) last ≡ (r, last t)
  finally-last (ok a) t last = refl
  finally-last (raised e) t last = refl

  finally-Restores :
      (t : List Call) (restore : List String)
      → Restores t restore (
          finally sd act
            (act (stop ∷ t), body ∷ stop ∷ t)
            (restart sd act (succeeded sd (sd.run t stop)) restore))
  finally-Restores t restore = elim (Bool-cases (succeeded sd (sd.run t stop))) [
    | inl stopped ↦ inl (
      succeeded-HasSucceeded sd (sd.run t stop) stopped,
      rw stopped (finally-last (act (stop ∷ t)) (body ∷ stop ∷ t) (restart sd act true restore)),
    )
    | inr refused ↦ inr (
      λ w. absurd (cc (refused, HasSucceeded-succeeded sd (sd.run t stop) w)),
      rw refused (finally-last (act (stop ∷ t)) (body ∷ stop ∷ t) (restart sd act false restore)),
    )
  ]

-- Whatever systemctl answers and whether the body returns or raises: first the units that need the router's
-- are listed, then systemctl is asked about `names`, if there are any, then the stop is tried, and right
-- after it the body runs, once, and its outcome is the outcome of the whole. If the stop ran to code 0, the
-- router's unit and the services `restore` are started right after the body; if not, no start is made.
-- `names` are the services that the listing gave, other than the unit itself; `restore` are those of them
-- that systemctl, asked about `names`, reported active.
pub router_stopped-restores :
    {A : Type 0} (sd : Systemd) (act : List Call → Outcome A) (t : List Call)
    → IsWindow sd act t (router_stopped sd act t)
unfolding router_stopped running_dependents
router_stopped-restores sd act t =
    let names = candidates_in sd (sd.run t list_dependencies) in
    let restore = (ask_active sd names (list_dependencies ∷ t)).0 in
    record {
      names = names;
      restore = restore;
      are_listed = candidates_in-IsListed sd t;
      are_reported = ask_active-IsReported sd names t;
      calls =
          rw (sym (ask_active-asked sd names t))
            (finally-Restores sd act (ask_active sd names (list_dependencies ∷ t)).1 restore);
    }
