-- ===== src/Board/Newest.antt =====
-- The core that `find_core_dir` (unoq_ota/board.py) chooses.
use mathlib.Core.Path.{subst}
use unoq_ota.Prelude.{
  ℕ, ◌≡◌, ◌⊎◌, inl, inr, refl, sym, ap, ◌∙◌, String, Bool, true, false, ◌||◌, List, [], ◌∷◌, ◌++◌,
  ◌==◌, Every, contains, Bool-cases, arith, eq_refl,
}
use unoq_ota.Outcome.{Outcome, ok, raised, os_error, ◌>>=◌, bind-ok}
use unoq_ota.Board.{
  Entry, Installation, less, newest, version_key, candidate_roots, installed_among, keyed, pick,
  pick_core, look_in, find_core_among, find_core_dir,
}

less_itself : (k : List ℕ) → less k k ≡ false
unfolding less
less_itself [] = refl
less_itself (x ∷ k) = ground (arith, less_itself k)

less_trans : (a b c : List ℕ) → less b c ≡ true → less a c ≡ false → less a b ≡ false
unfolding less
less_trans [] [] c h k = refl
less_trans (x ∷ a) [] c h k = refl
less_trans [] (y ∷ b) [] h k = absurd (cc h)
less_trans [] (y ∷ b) (z ∷ c) h k = absurd (cc k)
less_trans (x ∷ a) (y ∷ b) [] h k = absurd (cc h)
less_trans (x ∷ a) (y ∷ b) (z ∷ c) h k = elim (Bool-cases (less b c)) [
  | inr e ↦ ground (arith, h, k, e)
  | inl e ↦ elim (Bool-cases (less a c)) [
    | inl f ↦ ground (arith, h, k, e, f)
    | inr f ↦ ground (arith, h, k, e, f, less_trans a b c e f)
  ]
]

not_less_trans : (a b c : List ℕ) → less a b ≡ false → less b c ≡ false → less a c ≡ false
unfolding less
not_less_trans [] [] c h k = k
not_less_trans [] (y ∷ b) c h k = absurd (cc h)
not_less_trans (x ∷ a) [] [] h k = refl
not_less_trans (x ∷ a) [] (z ∷ c) h k = absurd (cc k)
not_less_trans (x ∷ a) (y ∷ b) [] h k = refl
not_less_trans (x ∷ a) (y ∷ b) (z ∷ c) h k = elim (Bool-cases (less a b)) [
  | inl e ↦ ground (arith, h, k, e)
  | inr e ↦ elim (Bool-cases (less b c)) [
    | inl f ↦ ground (arith, h, k, e, f)
    | inr f ↦ ground (arith, h, k, e, f, not_less_trans a b c e f)
  ]
]

abbrev IsLargest : List ℕ × String → List ℕ × String → Type 0
IsLargest d e = less d.0 e.0 ≡ false

newest_later :
    (d e : List ℕ × String) (es : List (List ℕ × String))
    → less d.0 e.0 ≡ true
    → newest d (e ∷ es) ≡ newest e es
unfolding newest
newest_later d e es h = rw h refl

newest_earlier :
    (d e : List ℕ × String) (es : List (List ℕ × String))
    → less d.0 e.0 ≡ false
    → newest d (e ∷ es) ≡ newest d es
unfolding newest
newest_earlier d e es h = rw h refl

IsLargest-along :
    {r r' : List ℕ × String} (l : List (List ℕ × String))
    → r ≡ r'
    → Every (IsLargest r') l
    → Every (IsLargest r) l
IsLargest-along l e h = subst (λ x. Every (IsLargest x) l) (sym e) h

newest-IsLargest :
    (d : List ℕ × String) (ds : List (List ℕ × String)) → Every (IsLargest (newest d ds)) (d ∷ ds)
unfolding newest
newest-IsLargest d [] = (less_itself d.0, tt)
newest-IsLargest d (e ∷ es) = elim (Bool-cases (less d.0 e.0)) [
  | inl h ↦
      let (first, rest) = newest-IsLargest e es in
      IsLargest-along (d ∷ e ∷ es) (newest_later d e es h)
        (less_trans (newest e es).0 d.0 e.0 h first, (first, rest))
  | inr h ↦
      let (first, rest) = newest-IsLargest d es in
      IsLargest-along (d ∷ e ∷ es) (newest_earlier d e es h)
        (first, (not_less_trans (newest d es).0 d.0 e.0 first h, rest))
]

newest-Every :
    (P : List ℕ × String → Type 0) (d : List ℕ × String) (ds : List (List ℕ × String))
    → Every P (d ∷ ds)
    → P (newest d ds)
unfolding newest
newest-Every P d [] (h, hs) = h
newest-Every P d (e ∷ es) (h, (k, ks)) = elim (Bool-cases (less d.0 e.0)) [
  | inl f ↦ rw (newest_later d e es f) (newest-Every P e es (k, ks))
  | inr f ↦ rw (newest_earlier d e es f) (newest-Every P d es (h, ks))
]

Every-map :
    {A : Type 0} {P Q : A → Type 0} → ((a : A) → P a → Q a) → (l : List A) → Every P l → Every Q l
Every-map f [] h = tt
Every-map f (x ∷ l) (h, hs) = (f x h, Every-map f l hs)

or_true : (b : Bool) → (b || true) ≡ true
or_true true = refl
or_true false = refl

module _ (i : Installation) where
  -- No version among these is newer than the key.
  abbrev pub IsNewestOf : List ℕ → List String → Type 0
  IsNewestOf key names =
      Every (λ n. (k : List ℕ) × (version_key i n ≡ ok k) × (less key k ≡ false)) names

  abbrev pub HasNoCore : i.Folder → Type 0
  HasNoCore root =
      ((m : String) × (i.iterdir root ≡ raised (os_error m)))
      ⊎ ((entries : List Entry) × (i.iterdir root ≡ ok entries) × (installed_among i entries ≡ []))

  keyed-IsNewestOf :
      (key : List ℕ) (ns : List String) (ks : List (List ℕ × String))
      → keyed i ns ≡ ok ks
      → Every (λ e. less key e.0 ≡ false) ks
      → IsNewestOf key ns
  unfolding keyed
  keyed-IsNewestOf key [] ks e h = tt
  keyed-IsNewestOf key (n ∷ ns) ks e h =
      let (k, has_key, e1) =
        bind-ok (version_key i n) (λ k. keyed i ns >>= λ rest. ok ((k, n) ∷ rest)) ks e in
      let (rest, had, e2) = bind-ok (keyed i ns) (λ rest. ok ((k, n) ∷ rest)) ks e1 in
      let same : (k, n) ∷ rest ≡ ks = cc in
      let all : Every (λ e. less key e.0 ≡ false) ((k, n) ∷ rest) =
        subst (Every (λ e. less key e.0 ≡ false)) (sym same) h in
      let (first, others) = all in ((k, has_key, first), keyed-IsNewestOf key ns rest had others)

  keyed-Every :
      (ns : List String) (ks : List (List ℕ × String))
      → keyed i ns ≡ ok ks
      → Every (λ e. (version_key i e.1 ≡ ok e.0) × (contains ns e.1 ≡ true)) ks
  unfolding keyed
  keyed-Every [] ks e = let same : [] ≡ ks = cc in rw (← same) tt
  keyed-Every (n ∷ ns) ks e =
      let (k, has_key, e1) =
        bind-ok (version_key i n) (λ k. keyed i ns >>= λ rest. ok ((k, n) ∷ rest)) ks e in
      let (rest, had, e2) = bind-ok (keyed i ns) (λ rest. ok ((k, n) ∷ rest)) ks e1 in
      let same : (k, n) ∷ rest ≡ ks = cc in
      rw (← same) (
        (has_key, rw (eq_refl n) refl),
        Every-map (λ x h. (h.0, ap (λ b. n == x.1 || b) h.1 ∙ or_true (n == x.1))) rest
            (keyed-Every ns rest had),
      )

  -- The directory is a core of the first root that has one, and of these the newest.
  pub record IsFound (roots : List i.Folder) (found : i.Folder) (core : String) : Type 0 where
    pub before : List i.Folder
    pub after : List i.Folder
    pub splits : roots ≡ before ++ (found ∷ after)
    pub skipped : Every HasNoCore before
    pub entries : List Entry
    pub listed : i.iterdir found ≡ ok entries
    pub key : List ℕ
    pub has_key : version_key i core ≡ ok key
    pub installed : contains (installed_among i entries) core ≡ true
    pub is_newest : IsNewestOf key (installed_among i entries)

  ok-pair :
      {p q : i.Folder} {a b : String}
      → ◌≡◌ {A = Outcome (i.Folder × String)} (ok (p, a)) (ok (q, b))
      → (p ≡ q) × (a ≡ b)
  ok-pair h = (cc, cc)

  skip_root :
      (root : i.Folder) (roots : List i.Folder) (found : i.Folder) (core : String)
      → HasNoCore root
      → IsFound roots found core
      → IsFound (root ∷ roots) found core
  skip_root root roots found core none_here w = record {
    before = root ∷ w.before;
    after = w.after;
    splits = ap (λ l. root ∷ l) w.splits;
    skipped = (none_here, w.skipped);
    entries = w.entries;
    listed = w.listed;
    key = w.key;
    has_key = w.has_key;
    installed = w.installed;
    is_newest = w.is_newest;
  }

  picked-IsFound :
      (root : i.Folder) (roots : List i.Folder) (entries : List Entry) (names : List String)
      (ks : List (List ℕ × String)) (found : i.Folder) (core : String)
      → i.iterdir root ≡ ok entries
      → installed_among i entries ≡ names
      → keyed i names ≡ ok ks
      → pick i root ks ≡ ok (found, core)
      → IsFound (root ∷ roots) found core
  picked-IsFound root roots entries names [] found core listed among has_keys chosen =
      absurd (cc chosen)
  picked-IsFound root roots entries names (d ∷ ds) found core listed among has_keys chosen =
      let (here, is_core) = ok-pair chosen in
      let (has_key, member) =
        newest-Every (λ e. (version_key i e.1 ≡ ok e.0) × (contains names e.1 ≡ true)) d ds
          (keyed-Every names (d ∷ ds) has_keys) in
      record {
        before = [];
        after = roots;
        splits = ap (λ r. r ∷ roots) here;
        skipped = tt;
        entries = entries;
        listed = ap i.iterdir (sym here) ∙ listed;
        key = (newest d ds).0;
        has_key = ap (version_key i) (sym is_core) ∙ has_key;
        installed =
            ap (contains (installed_among i entries)) (sym is_core)
            ∙ ap (λ l. contains l (newest d ds).1) among
            ∙ member;
        is_newest =
            subst (IsNewestOf (newest d ds).0) (sym among)
              (keyed-IsNewestOf (newest d ds).0 names (d ∷ ds) has_keys (newest-IsLargest d ds));
      }

  installed_or_rest :
      (root : i.Folder) (roots : List i.Folder) (entries : List Entry) (names : List String)
      (rest : Outcome (i.Folder × String)) (found : i.Folder) (core : String)
      → i.iterdir root ≡ ok entries
      → installed_among i entries ≡ names
      → (rest ≡ ok (found, core) → IsFound roots found core)
      → pick_core i root names rest ≡ ok (found, core)
      → IsFound (root ∷ roots) found core
  installed_or_rest root roots entries [] rest found core listed among others h =
      skip_root root roots found core (inr (entries, listed, among)) (others h)
  installed_or_rest root roots entries (n ∷ ns) rest found core listed among others h =
      let (ks, has_keys, chosen) = bind-ok (keyed i (n ∷ ns)) (pick i root) (found, core) h in
      picked-IsFound root roots entries (n ∷ ns) ks found core listed among has_keys chosen

  -- What looking into one root gives, where looking into the others finds what it should.
  look_in-IsFound :
      (root : i.Folder) (roots : List i.Folder) (r : Outcome (List Entry))
      (rest : Outcome (i.Folder × String)) (found : i.Folder) (core : String)
      → i.iterdir root ≡ r
      → (rest ≡ ok (found, core) → IsFound roots found core)
      → look_in i root r rest ≡ ok (found, core)
      → IsFound (root ∷ roots) found core
  look_in-IsFound root roots (ok entries) rest found core listed others h =
      installed_or_rest root roots entries (installed_among i entries) rest found core listed refl
        others h
  look_in-IsFound root roots (raised (os_error m)) rest found core listed others h =
      skip_root root roots found core (inl (m, listed)) (others h)
  look_in-IsFound root roots (raised e) rest found core listed others h = absurd (cc h)

  find_core_among-IsFound :
      (roots : List i.Folder) (found : i.Folder) (core : String)
      → find_core_among i roots ≡ ok (found, core)
      → IsFound roots found core
  unfolding find_core_among
  find_core_among-IsFound [] found core h = absurd (cc h)
  find_core_among-IsFound (root ∷ roots) found core h =
      look_in-IsFound root roots (i.iterdir root) (find_core_among i roots) found core refl
        (find_core_among-IsFound roots found core) h

-- The core that is found stands in the first of the candidate roots that can be listed and has an entry with
-- a readable boards.txt; roots before it have none or are refused by the file system. Its version, as the
-- list of the numbers between the dots, is one that no installed core of that root exceeds.
pub find_core_dir-IsFound :
    (i : Installation) (core_root found : i.Folder) (core : String)
    → find_core_dir i core_root ≡ ok (found, core)
    → IsFound i (candidate_roots i core_root) found core
unfolding find_core_dir
find_core_dir-IsFound i core_root found core h =
    find_core_among-IsFound i (candidate_roots i core_root) found core h
