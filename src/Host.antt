-- ===== src/Host.antt =====
-- unoq_ota/host.py: the host's tree, swapped by renames between four sibling directories. What `tarfile`
-- reads and where `Path.resolve` leads are parameters.
pub mod Swap
pub mod Undo
use Prim.Native.Char.{code}
use Prim.Native.String
use unoq_ota.Prelude.{
  ℕ, String, Bool, true, false, not, ◌||◌, Option, none, some, List, [], ◌∷◌, ◌++◌, eqb,
  if◌then◌else◌, take,
}
use unoq_ota.Outcome.{Outcome, ok, raised, Raised, host_error, os_error, refuse_if, ◌>>=◌, ◌>>◌}

pub record Member : Type 0 where
  pub name : String
  pub is_link : Bool  -- `issym()` or `islnk()`

abbrev is_absolute : String → Bool
is_absolute String.[] = false
is_absolute (String.◌∷◌ c s) = eqb (code c) 47 || eqb (code c) 92

-- `within` is whether the resolved path stays in the directory.
unfoldable pub validate_member : (String → Bool) → Member → Outcome (Unit {0})
validate_member within m = do
  refuse_if (is_absolute m.name) (host_error "host payload member has an absolute path")
  refuse_if (not (within m.name)) (host_error "host payload member escapes install dir")
  refuse_if m.is_link (host_error "host payload must not contain links")

unfoldable pub validate_members : (String → Bool) → List Member → Outcome (Unit {0})
unfolding validate_member
validate_members within [] = ok tt
validate_members within (m ∷ members) = validate_member within m >> validate_members within members

-- `live_dir`, then its siblings `.next`, `.previous` and `.failed`.
pub data Slot : Type 0 where
  live next previous failed : Slot

-- A `TarError` or an `OSError` becomes a `HostError`; both are `os_error` here.
abbrev as_host_error : Raised → Raised
as_host_error (os_error m) = host_error m
as_host_error e = e

-- A removal or an extraction that is cut short leaves part of a tree in its directory, and that is not
-- followed: only whole trees are.
module _ (Tree : Type 0) where
  pub record Dirs : Type 0 where
    pub live_dir : Option Tree
    pub next_dir : Option Tree
    pub prev_dir : Option Tree
    pub failed_dir : Option Tree

  -- One change of the file system: a tree put in place, removed, or renamed.
  pub data Change : Type 0 where
    put : Slot → Tree → Change
    remove : Slot → Change
    rename : Slot → Slot → Change

  -- An archive as `tarfile` finds it: not readable, or with these members and this content.
  pub data Archive : Type 0 where
    no_file : Archive
    broken : Raised → Archive
    archive : List Member → Outcome Tree → Archive

module _ {Tree : Type 0} where
  abbrev pub tree_at : Slot → Dirs Tree → Option Tree
  tree_at live d = d.live_dir
  tree_at next d = d.next_dir
  tree_at previous d = d.prev_dir
  tree_at failed d = d.failed_dir

  abbrev pub with_tree : Slot → Option Tree → Dirs Tree → Dirs Tree
  with_tree live t d = record d { live_dir = t }
  with_tree next t d = record d { next_dir = t }
  with_tree previous t d = record d { prev_dir = t }
  with_tree failed t d = record d { failed_dir = t }

  -- `Path.rename`, given what stands in the two directories: there must be something to rename, and
  -- nothing in the way. (An empty directory in the way, which the system call replaces, is refused too.)
  unfoldable pub rename_tree :
      Slot → Slot → Option Tree → Option Tree → Dirs Tree → Outcome (Dirs Tree)
  rename_tree s t none there d = raised (os_error "no such file or directory")
  rename_tree s t (some x) none d = ok (with_tree s none (with_tree t (some x) d))
  rename_tree s t (some x) (some y) d = raised (os_error "directory not empty")

  unfoldable pub change : Change Tree → Dirs Tree → Outcome (Dirs Tree)
  unfolding rename_tree
  change (put s t) d = ok (with_tree s (some t) d)
  change (remove s) d = ok (with_tree s none d)
  change (rename s t) d = rename_tree s t (tree_at s d) (tree_at t d) d

  unfoldable pub change_all : List (Change Tree) → Dirs Tree → Outcome (Dirs Tree)
  unfolding change
  change_all [] d = ok d
  change_all (c ∷ cs) d = change c d >>= change_all cs

  -- `if dir.exists(): ...`
  abbrev pub where_present : Option Tree → Change Tree → List (Change Tree)
  where_present none c = []
  where_present (some t) c = c ∷ []

  -- The renames of `apply_host_tree`, after the extraction.
  unfoldable pub swap_changes : Dirs Tree → List (Change Tree)
  swap_changes d =
      where_present d.prev_dir (remove previous)
      ++ where_present d.live_dir (rename live previous)
      ++ rename next live ∷ []

  -- The directory `.next` is removed on the failures that the code catches.
  abbrev pub cleared : Raised → List (Change Tree)
  cleared (os_error m) = remove next ∷ []
  cleared (host_error m) = remove next ∷ []
  cleared e = []

  abbrev pub after_extract : Dirs Tree → Outcome Tree → Outcome (Unit {0}) × List (Change Tree)
  after_extract d (raised e) = (raised (as_host_error e), cleared e)
  after_extract d (ok t) = (ok tt, put next t ∷ swap_changes d)

  abbrev pub unpack : Tree → Dirs Tree → Outcome Tree → Outcome (Unit {0}) × List (Change Tree)
  unpack empty d extracted =
      let (result, changes) = after_extract d extracted in
      (result, where_present d.next_dir (remove next) ++ put next empty ∷ changes)

  -- `apply_host_tree`: the outcome, and the changes that it makes in turn. `empty` is a new directory.
  unfoldable pub apply_host_tree :
      (String → Bool) → Tree → Dirs Tree → Archive Tree → Outcome (Unit {0}) × List (Change Tree)
  unfolding swap_changes validate_members
  apply_host_tree within empty d no_file = (raised (host_error "host payload is not a file"), [])
  apply_host_tree within empty d (broken e) = unpack empty d (raised e)
  apply_host_tree within empty d (archive members contents) =
      unpack empty d (validate_members within members >> contents)

  -- `rollback_host_tree`
  unfoldable pub rollback_host_tree : Dirs Tree → List (Change Tree)
  rollback_host_tree d = elim d.prev_dir [
    | none ↦ []
    | some t ↦
        where_present d.failed_dir (remove failed)
        ++ where_present d.live_dir (rename live failed)
        ++ rename previous live ∷ where_present d.live_dir (remove failed)
  ]
