-- ===== src/Host/Undo.antt =====
-- What a rollback makes of the host's tree, after an archive was applied and after one was refused.
use unoq_ota.Prelude.{◌≡◌, refl, ap, ◌∙◌, String, Bool, Option, none, some}
use unoq_ota.Outcome.{Outcome, ok, raised, Raised, host_error, os_error, ◌>>◌}
use unoq_ota.Host.{
  Dirs, Archive, no_file, broken, archive, change, change_all, cleared, unpack, apply_host_tree,
  rollback_host_tree, validate_members,
}
use unoq_ota.Host.Swap.{dirs}

-- The directories after a complete `apply_host_tree`, and after a complete `rollback_host_tree`.
abbrev pub applied :
    {Tree : Type 0} → (String → Bool) → Tree → Dirs Tree → Archive Tree → Outcome (Dirs Tree)
applied within empty d a = change_all (apply_host_tree within empty d a).1 d

abbrev pub rolled_back : {Tree : Type 0} → Dirs Tree → Outcome (Dirs Tree)
rolled_back d = change_all (rollback_host_tree d) d

abbrev pub or_tree : {Tree : Type 0} → Option Tree → Tree → Tree
or_tree none t = t
or_tree (some old) t = old

-- The tree is live, and nothing stands under `.next` or `.previous`.
abbrev pub IsUndone : {Tree : Type 0} → Tree → Dirs Tree → Type 0
IsUndone t d = (d.live_dir ≡ some t) × (d.next_dir ≡ none) × (d.prev_dir ≡ none)

-- The tree is live, and nothing stands under `.failed`.
abbrev pub IsRestored : {Tree : Type 0} → Tree → Dirs Tree → Type 0
IsRestored t d = (d.live_dir ≡ some t) × (d.failed_dir ≡ none)

module _ {Tree : Type 0} where
  change_all-cleared :
      (e : Raised) (l n p f : Option Tree)
      → (n' : Option Tree) × (change_all (cleared e) (dirs l n p f) ≡ ok (dirs l n' p f))
  unfolding change_all change
  change_all-cleared (os_error m) l n p f = (none, refl)
  change_all-cleared (host_error m) l n p f = (none, refl)
  change_all-cleared e l n p f = (n, refl)

  change_all-unpack :
      (empty : Tree) (l n p f : Option Tree) (r : Outcome Tree) (e : Raised)
      → (unpack empty (dirs l n p f) r).0 ≡ raised e
      → (n' : Option Tree) × (change_all (unpack empty (dirs l n p f) r).1 (dirs l n p f)
          ≡ ok (dirs l n' p f))
  unfolding change_all change
  change_all-unpack empty l n p f (ok t) e h = absurd (cc h)
  change_all-unpack empty l none p f (raised x) e h = change_all-cleared x l (some empty) p f
  change_all-unpack empty l (some m) p f (raised x) e h = change_all-cleared x l (some empty) p f

  applied-refused :
      (within : String → Bool) (empty : Tree) (d : Dirs Tree) (a : Archive Tree) (e : Raised)
      → (apply_host_tree within empty d a).0 ≡ raised e
      → (n' : Option Tree) × (applied within empty d a
          ≡ ok (dirs d.live_dir n' d.prev_dir d.failed_dir))
  unfolding apply_host_tree change_all
  applied-refused within empty d no_file e h = (d.next_dir, refl)
  applied-refused within empty d (broken x) e h =
      change_all-unpack empty d.live_dir d.next_dir d.prev_dir d.failed_dir (raised x) e h
  applied-refused within empty d (archive members contents) e h =
      change_all-unpack empty d.live_dir d.next_dir d.prev_dir d.failed_dir
        (validate_members within members >> contents) e h

  rolled_back-live :
      (l n f : Option Tree) (q : Tree)
      → (d' : Dirs Tree) × (rolled_back (dirs l n (some q) f) ≡ ok d') × IsRestored q d'
  unfolding rollback_host_tree change_all change
  rolled_back-live none n none q = (dirs (some q) n none none, refl, (refl, refl))
  rolled_back-live none n (some g) q = (dirs (some q) n none none, refl, (refl, refl))
  rolled_back-live (some l) n none q = (dirs (some q) n none none, refl, (refl, refl))
  rolled_back-live (some l) n (some g) q = (dirs (some q) n none none, refl, (refl, refl))

-- When `apply_host_tree` refuses an archive, it leaves the live tree alone, and a rollback that follows
-- puts live the tree that stood under `.previous` before, whatever was live: the live tree is discarded,
-- and not kept under `.failed` either. No rename finds its source missing or its target in the way.
pub rollback_host_tree-refused :
    {Tree : Type 0} (within : String → Bool) (empty q : Tree) (d : Dirs Tree) (a : Archive Tree)
    (e : Raised)
    → (apply_host_tree within empty d a).0 ≡ raised e
    → d.prev_dir ≡ some q
    → (d1 : Dirs Tree) × (applied within empty d a ≡ ok d1)
      × (d1.live_dir ≡ d.live_dir)
      × ((d2 : Dirs Tree) × (rolled_back d1 ≡ ok d2) × IsRestored q d2)
rollback_host_tree-refused within empty q d a e refused had =
    let (n, same) = applied-refused within empty d a e refused in
    let (d2, back, restored) = rolled_back-live d.live_dir n d.failed_dir q in
    (
      dirs d.live_dir n d.prev_dir d.failed_dir,
      same,
      refl,
      (d2, ap (λ p. rolled_back (dirs d.live_dir n p d.failed_dir)) had ∙ back, restored),
    )
