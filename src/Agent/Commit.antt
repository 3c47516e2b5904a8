-- ===== src/Agent/Commit.antt =====
-- What a commit leaves on disk.
use unoq_ota.Prelude.{
  ◌≡◌, ◌≢◌, sym, ◌<>◌, refl, ap, ◌∙◌, Bool, true, false, Option, none, some, if◌then◌else◌, inl,
  inr,
}
use unoq_ota.Outcome.{Outcome, ok, raised, Raised, message, Outcome-cases}
use unoq_ota.Python.{Python}
use unoq_ota.Artifact.{Bytes}
use unoq_ota.State.{Phase, State, load}
use unoq_ota.Interfaces.{Update, Status}
use unoq_ota.Agent.World.{
  World, Env, Files, FileName, read, write, current, previous, staged, copy, save,
}
use unoq_ota.Agent.Cycle.{◌>>=◌, ◌>>◌, Cycle, pure, proceed, settle, swallow, perform}
use unoq_ota.Agent.Store.{save_state, set_phase}
use unoq_ota.Agent.Rollback.{report, is_some}
use unoq_ota.Agent.Install.{copy_bytes, atomic_copy, copy_images, after_copy, commit, with_commit}

abbrev backed_up : Bool → Files → Files
backed_up true f = write previous f.current_bin f
backed_up false f = f

-- The files after a commit.
abbrev pub committed_files : Files → Files
committed_files f =
    let f' = backed_up (is_some f.current_bin) f in write current (read staged f') f'

proceed-ok :
    {py : Python} {B : Type 0} (r : Outcome (Unit {0})) (k : Cycle py B) (w : World py) (b : B)
    → (proceed r (λ t. k) w).0 ≡ ok b
    → (r ≡ ok tt) × (proceed r (λ t. k) w ≡ k w)
proceed-ok (ok t) k w b h = (refl, refl)
proceed-ok (raised e) k w b h = absurd (cc h)

module _ {py : Python} (env : Env py) where
  save_state-files : (s : State) (w : World py) → (swallow (save_state env s) w).1.files ≡ w.files
  unfolding swallow perform
  save_state-files s w = elim (Outcome-cases (env.io w (save s))) [
    | inl (t, e) ↦ rw e refl
    | inr (x, e) ↦ rw e refl
  ]

  settle-files :
      (m n : FileName) (o : Outcome (Unit {0})) (w : World py)
      → (settle (copy m n) o w).0 ≡ ok tt
      → (settle (copy m n) o w).1.files ≡ write n (read m w.files) w.files
  settle-files m n (ok t) w h = refl
  settle-files m n (raised e) w h = absurd (cc h)

  -- A copy that returns has written the source's bytes, and nothing else.
  copy_bytes-files :
      (m n : FileName) (b : Option Bytes) (w : World py)
      → (copy_bytes env m n b w).0 ≡ ok tt
      → (copy_bytes env m n b w).1.files ≡ write n (read m w.files) w.files
  unfolding perform
  copy_bytes-files m n none w h = absurd (cc h)
  copy_bytes-files m n (some b) w h = settle-files m n (env.io w (copy m n)) w h

  report-files :
      (u : Update) (w : World py)
      → ((report env u Status.committed "healthy" >> pure Phase.committed) w).1.files ≡ w.files
  unfolding ◌>>=◌ report
  report-files u w = elim (Outcome-cases (env.report w u.version Status.committed "healthy")) [
    | inl (t, e) ↦ rw e refl
    | inr (x, e) ↦ rw e refl
  ]

  after_copy-files :
      (u : Update) (had : Bool) (w : World py) → (after_copy env u (ok had) w).1.files ≡ w.files
  unfolding after_copy ◌>>=◌ swallow
  after_copy-files u had w = elim (Outcome-cases (load py w.state_file)) [
    | inl (s, e) ↦ rw e (
        report-files u (swallow (save_state env (with_commit u had s)) w).1
        ∙ save_state-files (with_commit u had s) w)
    | inr (x, e) ↦ rw e refl
  ]

  -- `commit` reports a rejection where the copies fail.
  after_copy-fails :
      (u : Update) (e : Raised) (w : World py)
      → (after_copy env u (raised e) w).0 ≢ ok Phase.committed
  unfolding after_copy ◌>>=◌ report set_phase swallow
  after_copy-fails u e w =
      elim (Outcome-cases
        (env.report w u.version Status.rejected ("commit copy failed: " <> message e))) [
          | inl (t, r) ↦ rw r (λ h. absurd (cc h))
          | inr (x, r) ↦ rw r (λ h. absurd (cc h))
        ]

  copy_current-files :
      (had : Bool) (w : World py)
      → ((if had then atomic_copy env current previous else pure tt) w).0 ≡ ok tt
      → ((if had then atomic_copy env current previous else pure tt) w).1.files
        ≡ backed_up had w.files
  unfolding atomic_copy
  copy_current-files true w h = copy_bytes-files current previous (read current w.files) w h
  copy_current-files false w h = refl

  copy_images-files :
      (w : World py) (had : Bool)
      → (copy_images env w).0 ≡ ok had
      → (copy_images env w).1.files ≡ committed_files w.files
  unfolding copy_images ◌>>=◌ atomic_copy
  copy_images-files w had h =
      let has = is_some (read current w.files) in
      let first = (if has then atomic_copy env current previous else pure tt) w in
      let second = atomic_copy env staged current first.1 in
      let (ok1, e1) =
        proceed-ok first.0 (atomic_copy env staged current >> pure has) first.1 had h in
      let (ok2, e2) = proceed-ok second.0 (pure has) second.1 had (sym (ap (λ p. p.0) e1) ∙ h) in
      ap (λ p. p.1.files) e1
      ∙ ap (λ p. p.1.files) e2
      ∙ copy_bytes-files staged current (read staged first.1.files) first.1 ok2
      ∙ ap (λ f. write current (read staged f) f) (copy_current-files has w ok1)

  after_copy-committed :
      (u : Update) (r : Outcome Bool) (w : World py) (f : Files)
      → ((had : Bool) → r ≡ ok had → w.files ≡ f)
      → (after_copy env u r w).0 ≡ ok Phase.committed
      → (after_copy env u r w).1.files ≡ f
  after_copy-committed u (ok had) w f copied h = after_copy-files u had w ∙ copied had refl
  after_copy-committed u (raised e) w f copied h = absurd (after_copy-fails u e w h)

-- If the commit step returns COMMITTED, then `current.bin` holds what was staged, `previous.bin` what
-- was current if there was any, and the other files are as they were; whatever the state store and the
-- source do.
pub commit-files :
    {py : Python} (env : Env py) (u : Update) (w : World py)
    → (commit env u w).0 ≡ ok Phase.committed
    → (commit env u w).1.files ≡ committed_files w.files
unfolding commit ◌>>=◌
commit-files env u w h =
    let (r, w') = copy_images env w in
    after_copy-committed env u r w' (committed_files w.files) (copy_images-files env w) h
