-- ===== src/Net/Rows.antt =====
-- The default routes that the lines of the kernel's table give (unoq_ota/net.py).
use mathlib.Core.Path.{subst}
use unoq_ota.Prelude.{
  ℤ, ◌≡◌, ◌⊎◌, inl, inr, refl, sym, ap, ◌∙◌, String, Option, none, some, List, [], ◌∷◌, ◌++◌, Every,
  Bool-cases, ◌==◌, eq_iff,
}
use unoq_ota.Net.{Texts, Route, route_if_metric, row_of, rows_of, given_gateway, ipv4_from_proc_hex}

-- At least eight columns: the device, the destination zero, and in the seventh place a number.
pub record IsDefaultRow (t : Texts) (columns : List String) (iface : String) (metric : ℤ)
    : Type 0 where
  pub gateway_hex : String
  pub flags : String
  pub references : String
  pub use_count : String
  pub metric_text : String
  pub mask : String
  pub rest : List String
  pub is_columns :
      columns
      ≡ iface ∷ "00000000" ∷ gateway_hex ∷ flags ∷ references ∷ use_count ∷ metric_text ∷ mask
        ∷ rest
  pub is_number : t.int_of metric_text ≡ some metric

pub Every-map :
    {A : Type 0} (P Q : A → Type 0) (xs : List A) → ((x : A) → P x → Q x) → Every P xs → Every Q xs
Every-map P Q [] f h = tt
Every-map P Q (x ∷ xs) f (h, hs) = (f x h, Every-map P Q xs f hs)

Every-split :
    {A : Type 0} (P : A → Type 0) (xs ys : List A) → Every P (xs ++ ys) → Every P xs × Every P ys
Every-split P [] ys h = (tt, h)
Every-split P (x ∷ xs) ys (h, hs) = let (a, b) = Every-split P xs ys hs in ((h, a), b)

module _ (t : Texts) where
  metric-one :
      (o : Option ℤ) (iface hex : String) (r : Route) (rs : List Route)
      → route_if_metric t iface o hex ≡ r ∷ rs
      → (o ≡ some r.metric) × (r.iface ≡ iface) × (rs ≡ [])
  metric-one none iface hex r rs h = absurd (cc h)
  metric-one (some m) iface hex r rs h =
      let made : Route = record {
        iface = iface;
        metric = m;
        gateway = given_gateway (ipv4_from_proc_hex t hex);
      } in
      let same : made ≡ r = cc in
      (ap (λ (x : Route). some x.metric) same, ap (λ (x : Route). x.iface) (sym same), cc)

  pub row_of-one :
      (columns : List String) (r : Route) (rs : List Route)
      → row_of t columns ≡ r ∷ rs
      → IsDefaultRow t columns r.iface r.metric × (rs ≡ [])
  row_of-one (iface ∷ dest ∷ hex ∷ flags ∷ ref ∷ count ∷ metric ∷ mask ∷ rest) r rs h =
      elim (Bool-cases (dest == "00000000")) [
        | inl zero ↦
            let given : route_if_metric t iface (t.int_of metric) hex ≡ r ∷ rs = cc in
            let (is_number, device, alone) = metric-one (t.int_of metric) iface hex r rs given in
            (
              record {
                gateway_hex = hex;
                flags = flags;
                references = ref;
                use_count = count;
                metric_text = metric;
                mask = mask;
                rest = rest;
                is_columns = rw (device, (eq_iff dest "00000000").0 zero) refl;
                is_number = is_number;
              },
              alone,
            )
        | inr other ↦ absurd (cc (h, other))
      ]
  row_of-one columns r rs h = absurd (cc h)

  row_of-cases :
      (columns : List String)
      → (row_of t columns ≡ []) ⊎ ((r : Route) × (row_of t columns ≡ r ∷ []))
  row_of-cases columns = shape (row_of t columns) refl
    where
      shape :
          (rows : List Route)
          → row_of t columns ≡ rows
          → (row_of t columns ≡ []) ⊎ ((r : Route) × (row_of t columns ≡ r ∷ []))
      shape [] e = inl e
      shape (r ∷ rs) e = inr (r, e ∙ ap (λ l. r ∷ l) (row_of-one columns r rs e).1)

  pub row_of-given :
      (columns : List String) (iface : String) (metric : ℤ)
      (w : IsDefaultRow t columns iface metric)
      → row_of t columns
        ≡ record {
          iface = iface;
          metric = metric;
          gateway = given_gateway (ipv4_from_proc_hex t w.gateway_hex);
        }
          ∷ []
  row_of-given columns iface metric w = rw (w.is_columns, w.is_number) refl

  -- The rows of a line have the property.
  abbrev pub OnRows : (Route → Type 0) → String → Type 0
  OnRows P line = Every P (row_of t (t.split line))

  rows_of-OnRows :
      (P : Route → Type 0) (lines : List String)
      → Every P (rows_of t lines)
      → Every (OnRows P) lines
  unfolding rows_of
  rows_of-OnRows P [] h = tt
  rows_of-OnRows P (l ∷ lines) h =
      let (here, later) = Every-split P (row_of t (t.split l)) (rows_of t lines) h in
      (here, rows_of-OnRows P lines later)

  -- Where a route stands among the rows, its line stands among the lines.
  pub record IsLine (P Q : Route → Type 0) (lines : List String) (r : Route) : Type 0 where
    pub before : List String
    pub line : String
    pub after : List String
    pub splits : lines ≡ before ++ (line ∷ after)
    pub gives : row_of t (t.split line) ≡ r ∷ []
    pub earlier : Every (OnRows P) before
    pub later : Every (OnRows Q) after

  -- A line in front whose rows have the property.
  behind :
      (P Q : Route → Type 0) (l : String) (lines : List String) (r : Route)
      → OnRows P l
      → IsLine P Q lines r
      → IsLine P Q (l ∷ lines) r
  behind P Q l lines r h w = record {
    before = l ∷ w.before;
    line = w.line;
    after = w.after;
    splits = ap (λ x. l ∷ x) w.splits;
    gives = w.gives;
    earlier = (h, w.earlier);
    later = w.later;
  }

  pub rows_of-IsLine :
      (P Q : Route → Type 0) (lines : List String) (before after : List Route) (r : Route)
      → rows_of t lines ≡ before ++ (r ∷ after)
      → Every P before
      → Every Q after
      → IsLine P Q lines r
  unfolding rows_of
  rows_of-IsLine P Q [] [] after r h p q = absurd (cc h)
  rows_of-IsLine P Q [] (b ∷ before) after r h p q = absurd (cc h)
  rows_of-IsLine P Q (l ∷ lines) [] after r h p q = elim (row_of-cases (t.split l)) [
    | inl e ↦
        let rest : rows_of t lines ≡ r ∷ after =
          subst (λ rows. rows ++ rows_of t lines ≡ r ∷ after) e h in
        behind P Q l lines r (rw e tt) (rows_of-IsLine P Q lines [] after r rest p q)
    | inr (s, e) ↦
        let rest : s ∷ rows_of t lines ≡ r ∷ after =
          subst (λ rows. rows ++ rows_of t lines ≡ r ∷ after) e h in
        let first : s ≡ r = cc in
        let tail : rows_of t lines ≡ after = cc in
        record {
          before = [];
          line = l;
          after = lines;
          splits = refl;
          gives = e ∙ ap (λ x. x ∷ []) first;
          earlier = tt;
          later = rows_of-OnRows Q lines (subst (Every Q) (sym tail) q);
        }
  ]
  rows_of-IsLine P Q (l ∷ lines) (b ∷ before) after r h p q = elim (row_of-cases (t.split l)) [
    | inl e ↦
        let rest : rows_of t lines ≡ b ∷ before ++ (r ∷ after) =
          subst (λ rows. rows ++ rows_of t lines ≡ b ∷ before ++ (r ∷ after)) e h in
        behind P Q l lines r (rw e tt) (rows_of-IsLine P Q lines (b ∷ before) after r rest p q)
    | inr (s, e) ↦
        let rest : s ∷ rows_of t lines ≡ b ∷ before ++ (r ∷ after) =
          subst (λ rows. rows ++ rows_of t lines ≡ b ∷ before ++ (r ∷ after)) e h in
        let first : s ≡ b = cc in
        let tail : rows_of t lines ≡ before ++ (r ∷ after) = cc in
        behind P Q l lines r (rw e (subst P (sym first) p.0, tt))
          (rows_of-IsLine P Q lines before after r tail p.1 q)
  ]
