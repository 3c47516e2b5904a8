-- ===== src/Board.antt =====
-- unoq_ota/board.py: where the sketch partition lies. Paths, `str.split`, `str.isdigit`, `int` and reading
-- boards.txt are parameters; a `BoardError` is an `other_error`.
pub mod Newest
use Prim.Native.Char.{code}
use Prim.Native.String
use unoq_ota.Prelude.{
  ℕ, String, Bool, true, false, not, ◌&&◌, ◌||◌, Option, none, some, List, [], ◌∷◌, ◌++◌, ltb, eqb,
  ◌==◌, if◌then◌else◌,
}
use unoq_ota.Outcome.{Outcome, ok, raised, Raised, os_error, other_error, ◌>>=◌}

pub record FlashTarget : Type 0 where
  pub address : ℕ
  pub max_size : ℕ
  pub core_version : String

-- An entry of a directory: its name, and whether it is a directory that has a file boards.txt.
pub record Entry : Type 0 where
  pub name : String
  pub holds_boards_txt : Outcome Bool

-- Paths of folders are a type of their own; an address in boards.txt is not negative.
pub record Installation : Type 1 where
  pub Folder : Type 0
  pub is_core_subpath : Folder → Bool  -- whether its last parts are `CORE_SUBPATH`
  pub join_core : Folder → Folder  -- `root / CORE_SUBPATH`
  pub join_arduino15 : Folder → Folder  -- `root / ARDUINO15 / CORE_SUBPATH`
  pub iterdir : Folder → Outcome (List Entry)
  pub split_dots : String → List String
  pub is_digit : String → Bool
  pub int_of : String → Option ℕ
  pub int_of_literal : String → Option ℕ
  pub boards_lines : Folder → String → Outcome (List String)  -- of `core / "boards.txt"`
  pub strip : String → String
  pub partition : String → String × String  -- by the first "=", less that

-- The order of tuples.
unfoldable pub less : List ℕ → List ℕ → Bool
less [] [] = false
less [] (y ∷ ys) = true
less (x ∷ xs) [] = false
less (x ∷ xs) (y ∷ ys) = let rest = less xs ys in if ltb x y then true else eqb x y && rest

-- `max` with a key takes the first of the largest.
unfoldable pub newest : (List ℕ × String) → List (List ℕ × String) → List ℕ × String
unfolding less
newest d [] = d
newest d (e ∷ es) = newest (if less d.0 e.0 then e else d) es

abbrev pub number : Option ℕ → Outcome ℕ
number none = raised (other_error "invalid literal for int()")
number (some n) = ok n

-- `#` at the start of a line
unfoldable pub is_comment : String → Bool
is_comment String.[] = false
is_comment (String.◌∷◌ c s) = eqb (code c) 35

module _ (i : Installation) where
  unfoldable pub chunks_key : List String → Outcome (List ℕ)
  chunks_key [] = ok []
  chunks_key (chunk ∷ rest) = do
    n ← if i.is_digit chunk then number (i.int_of chunk) else ok 0
    ns ← chunks_key rest
    ok (n ∷ ns)

  unfoldable pub version_key : String → Outcome (List ℕ)
  unfolding chunks_key
  version_key name = chunks_key (i.split_dots name)

  abbrev pub is_core : Outcome Bool → Bool
  is_core (ok b) = b
  is_core (raised e) = false

  unfoldable pub candidate_roots : i.Folder → List i.Folder
  candidate_roots root =
      if i.is_core_subpath root
      then root ∷ []
      else root ∷ i.join_core root ∷ i.join_arduino15 root ∷ []

  -- The names of the entries that `_holds_boards_txt` keeps.
  unfoldable pub installed_among : List Entry → List String
  installed_among [] = []
  installed_among (e ∷ es) =
      let rest = installed_among es in if is_core e.holds_boards_txt then e.name ∷ rest else rest

  unfoldable pub keyed : List String → Outcome (List (List ℕ × String))
  unfolding version_key
  keyed [] = ok []
  keyed (n ∷ ns) = do k ← version_key n; rest ← keyed ns; ok ((k, n) ∷ rest)

  abbrev pub pick : i.Folder → List (List ℕ × String) → Outcome (i.Folder × String)
  pick root [] = raised (other_error "max() of an empty sequence")
  pick root (d ∷ ds) = ok (root, (newest d ds).1)

  abbrev pub pick_core :
      i.Folder → List String → Outcome (i.Folder × String) → Outcome (i.Folder × String)
  pick_core root [] rest = rest
  pick_core root (n ∷ ns) rest = keyed (n ∷ ns) >>= pick root

  abbrev pub look_in :
      i.Folder → Outcome (List Entry) → Outcome (i.Folder × String) → Outcome (i.Folder × String)
  look_in root (ok entries) rest = pick_core root (installed_among entries) rest
  look_in root (raised (os_error m)) rest = rest
  look_in root (raised e) rest = raised e

  unfoldable pub find_core_among : List i.Folder → Outcome (i.Folder × String)
  unfolding installed_among keyed newest
  find_core_among [] = raised (other_error "no Arduino zephyr core installed")
  find_core_among (root ∷ roots) =
      let rest = find_core_among roots in look_in root (i.iterdir root) rest

  -- The root of the core, and the name of its directory there.
  unfoldable pub find_core_dir : i.Folder → Outcome (i.Folder × String)
  unfolding candidate_roots find_core_among
  find_core_dir core_root = find_core_among (candidate_roots core_root)

  unfoldable pub property_in : String → List String → Outcome String
  unfolding is_comment
  property_in key [] = raised (other_error "property not found")
  property_in key (raw ∷ lines) =
      let rest = property_in key lines in
      let (name, value) = i.partition (i.strip raw) in
      if i.strip raw == "" || is_comment (i.strip raw)
      then rest
      else if i.strip name == key
      then ok (i.strip value)
      else rest

  -- `int(..., 0)` of a property; the file is read for each.
  unfoldable pub read_number : i.Folder → String → String → Outcome ℕ
  unfolding property_in
  read_number root core key = do
    lines ← i.boards_lines root core
    text ← property_in key lines
    number (i.int_of_literal text)

  -- `root` is the root that is given, or `default_core_root`
  unfoldable pub resolve_flash_target : i.Folder → Outcome FlashTarget
  unfolding find_core_dir read_number
  resolve_flash_target root = do
    (found, core) ← find_core_dir root
    address ← read_number found core "unoq.upload.address"
    max_size ← read_number found core "unoq.upload.maximum_size"
    ok (record { address = address; max_size = max_size; core_version = core })
