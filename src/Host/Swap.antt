-- ===== src/Host/Swap.antt =====
-- The swap of the host's tree, interrupted anywhere.
use unoq_ota.Prelude.{◌≡◌, ◌⊎◌, String, Bool, Option, none, some, List, [], ◌∷◌}
use unoq_ota.Outcome.{Outcome, ok, Returns}
use unoq_ota.Host.{Member, Dirs, Change, Archive, archive, change, validate_members}

-- The new tree is live, or none is, and then the old one stands under `.previous` and the new one
-- under `.next`.
abbrev pub IsSwapped : {Tree : Type 0} → Option Tree → Tree → Dirs Tree → Type 0
IsSwapped old t d =
    (d.live_dir ≡ some t) ⊎ ((d.live_dir ≡ none) × (d.prev_dir ≡ old) × (d.next_dir ≡ some t))

-- The live tree is untouched, or the archive was sound and its tree is swapped in as above.
abbrev pub IsWhole :
    {Tree : Type 0} → (String → Bool) → Archive Tree → Option Tree → Dirs Tree → Type 0
IsWhole {Tree} within a old d =
    (d.live_dir ≡ old)
    ⊎ ((members : List Member) × (t : Tree) × (a ≡ archive members (ok t))
        × (validate_members within members ≡ ok tt)
        × IsSwapped old t d)

module _ {Tree : Type 0} (P : Dirs Tree → Type 0) where
  -- No change is refused, and the predicate holds before each and after the last.
  abbrev Always : List (Change Tree) → Dirs Tree → Type 0
  Always [] d = P d
  Always (c ∷ cs) d = P d × Returns (Always cs) (change c d)

abbrev pub dirs :
    {Tree : Type 0} → Option Tree → Option Tree → Option Tree → Option Tree → Dirs Tree
dirs l n p f = record { live_dir = l; next_dir = n; prev_dir = p; failed_dir = f }
