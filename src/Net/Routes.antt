-- ===== src/Net/Routes.antt =====
-- The default route that is chosen, and what the cellular gate allows (unoq_ota/net.py,
-- unoq_ota/gates/cellular_signal.py).
use mathlib.Core.Path.{subst}
use unoq_ota.Net.Rows.{IsDefaultRow, OnRows, Every-map, row_of-one, row_of-given, rows_of-IsLine}
use unoq_ota.Net.Signal.{
  IsQuality, IsCellular, parse_signal_quality-IsQuality, iface_kind-IsCellular,
}
use unoq_ota.Prelude.{
  zero, suc, ℤ, pos, negsuc, ltb_ℤ, leb_ℤ, ◌≡◌, ◌↔◌, ◌⊎◌, inl, inr, refl, ap, ◌∙◌, String, Bool,
  true, false, Option, none, some, List, [], ◌∷◌, ◌++◌, Every, Bool-cases, ◌==◌,
}
use unoq_ota.Outcome.{Outcome, ok, raised}
use unoq_ota.Net.Lowest.{IsAbove, IsNotBelow, IsLowestOf, lowest_of-IsLowestOf}
use unoq_ota.Net.{
  Texts, Route, lowest_default, after_header, parse_default_route_rows, iface_kind,
  parse_signal_quality, Probe, ran, timed_out, not_run, broke, judge_quality, judge_probe,
  judge_kind, judge_route, may_fetch,
}

-- What the rows of a line, of which there is one at most, say of its metric.
abbrev IsOver : Texts → Route → String → Type 0
IsOver t r line =
    (iface : String) (metric : ℤ)
    → IsDefaultRow t (t.split line) iface metric
    → ltb_ℤ r.metric metric ≡ true

abbrev IsNotUnder : Texts → Route → String → Type 0
IsNotUnder t r line =
    (iface : String) (metric : ℤ)
    → IsDefaultRow t (t.split line) iface metric
    → ltb_ℤ metric r.metric ≡ false

-- The table has, under its heading, a line of a default route that gives this device and this metric; the
-- default routes of the lines before it have larger metrics, and those of the lines after no smaller ones.
pub record IsFirstLowest (t : Texts) (proc_text : String) (r : Route) : Type 0 where
  pub heading : String
  pub before : List String
  pub line : String
  pub after : List String
  pub splits : t.splitlines proc_text ≡ heading ∷ before ++ (line ∷ after)
  pub row : IsDefaultRow t (t.split line) r.iface r.metric
  pub over : Every (IsOver t r) before
  pub not_under : Every (IsNotUnder t r) after

module _ (t : Texts) (proc_text : String) (r : Route) where
  OnRows-IsOver : (line : String) → OnRows t (IsAbove r) line → IsOver t r line
  OnRows-IsOver line h iface metric w =
      (subst (Every (IsAbove r)) (row_of-given t (t.split line) iface metric w) h).0

  OnRows-IsNotUnder : (line : String) → OnRows t (IsNotBelow r) line → IsNotUnder t r line
  OnRows-IsNotUnder line h iface metric w =
      (subst (Every (IsNotBelow r)) (row_of-given t (t.split line) iface metric w) h).0

  lines-IsFirstLowest :
      (lines : List String)
      → t.splitlines proc_text ≡ lines
      → IsLowestOf r (after_header t lines)
      → IsFirstLowest t proc_text r
  lines-IsFirstLowest [] e w = absurd (no_row w.before w.splits)
    where
      no_row : (before : List Route) → [] ≡ before ++ (r ∷ w.after) → ⊥
      no_row [] h = cc
      no_row (b ∷ before) h = cc
  lines-IsFirstLowest (heading ∷ lines) e w =
      let l =
        rows_of-IsLine t (IsAbove r) (IsNotBelow r) lines w.before w.after r w.splits w.above
          w.not_below in
      record {
        heading = heading;
        before = l.before;
        line = l.line;
        after = l.after;
        splits = e ∙ ap (λ x. heading ∷ x) l.splits;
        row = (row_of-one t (t.split l.line) r [] l.gives).0;
        over = Every-map (OnRows t (IsAbove r)) (IsOver t r) l.before OnRows-IsOver l.earlier;
        not_under =
            Every-map (OnRows t (IsNotBelow r)) (IsNotUnder t r) l.after OnRows-IsNotUnder l.later;
      }

-- The default route that is chosen has the device and the metric of a line under the heading of the
-- kernel's table that has at least eight columns, destination zero and a metric that is a number: the
-- first such line of those with the smallest metric.
pub lowest_default-IsFirstLowest :
    (t : Texts) (proc_text : String) (r : Route)
    → lowest_default t (some proc_text) ≡ some r
    → IsFirstLowest t proc_text r
unfolding lowest_default parse_default_route_rows
lowest_default-IsFirstLowest t proc_text r h =
    lines-IsFirstLowest t proc_text r (t.splitlines proc_text) refl
      (lowest_of-IsLowestOf (parse_default_route_rows t proc_text) r h)

abbrev pub is_allowed : Outcome (Bool × String) → Bool
is_allowed (ok (b, reason)) = b
is_allowed (raised e) = false

-- What the gate lets through: no default route, a default route on a device that is not cellular, or a
-- probe that ends well with a quality that is large enough.
abbrev pub MayFetch : Texts → ℤ → Option String → (String → Option String) → Probe → Type 0
MayFetch t min_quality proc_text driver_of probe =
    (lowest_default t proc_text ≡ none)
    ⊎ ((r : Route) × (lowest_default t proc_text ≡ some r)
        × ((¬ IsCellular t r.iface (driver_of r.iface))
            ⊎ ((out : String) × (err : String) × (q : ℤ) × (probe ≡ ran (pos 0) out err)
                × IsQuality t (t.splitlines out) q
                × (leb_ℤ min_quality q ≡ true))))

abbrev GoodProbe : Texts → ℤ → Probe → Type 0
GoodProbe t min_quality probe =
    (out : String) × (err : String) × (q : ℤ) × (probe ≡ ran (pos 0) out err)
    × (parse_signal_quality t out ≡ some q)
    × (leb_ℤ min_quality q ≡ true)

module _ (t : Texts) (min_quality : ℤ) (timeout : String) where
  judge_quality-allows :
      (o : Option ℤ)
      → ((judge_quality t min_quality timeout o).0 ≡ true)
        ↔ ((q : ℤ) × (o ≡ some q) × (leb_ℤ min_quality q ≡ true))
  judge_quality-allows none = (λ h. absurd (cc h), λ (q, e, h). absurd (cc e))
  judge_quality-allows (some q) =
      (λ h. (q, refl, h), λ (q', e, h). let same : q' ≡ q = cc in rw (← same) h)

  judge_probe-allows :
      (p : Probe)
      → (is_allowed (judge_probe t min_quality timeout p) ≡ true) ↔ GoodProbe t min_quality p
  judge_probe-allows timed_out =
      (λ h. absurd (cc h), λ (out', err', q, e, reads, enough). absurd (cc e))
  judge_probe-allows (not_run m) =
      (λ h. absurd (cc h), λ (out', err', q, e, reads, enough). absurd (cc e))
  judge_probe-allows (broke x) =
      (λ h. absurd (cc h), λ (out', err', q, e, reads, enough). absurd (cc e))
  judge_probe-allows (ran (negsuc n) out err) =
      (λ h. absurd (cc h), λ (out', err', q, e, reads, enough). absurd (cc e))
  judge_probe-allows (ran (pos (suc n)) out err) =
      (λ h. absurd (cc h), λ (out', err', q, e, reads, enough). absurd (cc e))
  judge_probe-allows (ran (pos zero) out err) = (
    λ h.
        let (q, reads, enough) = (judge_quality-allows (parse_signal_quality t out)).0 h in
        (out, err, q, refl, reads, enough),
    λ (out', err', q, e, reads, enough).
        let same : out ≡ out' = cc in
        (judge_quality-allows (parse_signal_quality t out)).1
          (q, ap (parse_signal_quality t) same ∙ reads, enough),
  )

  judge_kind-allows :
      (iface kind : String) (p : Probe)
      → (is_allowed (judge_kind t min_quality timeout iface kind p) ≡ true)
        ↔ (((kind == "cellular") ≡ false) ⊎ GoodProbe t min_quality p)
  judge_kind-allows iface kind p = elim (Bool-cases (kind == "cellular")) [
    | inl e ↦ rw e (
      λ h. inr ((judge_probe-allows p).0 h),
      λ w. elim w [ inl h ↦ absurd (cc h) | inr g ↦ (judge_probe-allows p).1 g ],
    )
    | inr e ↦ rw e (λ h. inl refl, λ w. refl)
  ]

  judge_route-allows :
      (driver_of : String → Option String) (o : Option Route) (p : Probe)
      → (is_allowed (judge_route t min_quality timeout driver_of o p) ≡ true) ↔ (
          (o ≡ none)
          ⊎ ((r : Route) × (o ≡ some r)
              × (((iface_kind t r.iface (driver_of r.iface) == "cellular") ≡ false)
                  ⊎ GoodProbe t min_quality p)))
  judge_route-allows driver_of none p = (λ h. inl refl, λ w. refl)
  judge_route-allows driver_of (some r) p =
      let k = judge_kind-allows r.iface (iface_kind t r.iface (driver_of r.iface)) p in
      (
        λ h. inr (r, refl, k.0 h),
        λ w. elim w [
          | inl e ↦ absurd (cc e)
          | inr (r', e, g) ↦
              let same : r ≡ r' = cc in
              let kind =
                ap (λ (x : Route). (iface_kind t x.iface (driver_of x.iface) == "cellular")) same in
              k.1 (rw kind g)
        ],
      )

  not-IsCellular :
      (iface : String) (driver : Option String)
      → ((iface_kind t iface driver == "cellular") ≡ false) ↔ (¬ IsCellular t iface driver)
  not-IsCellular iface driver =
      let same = iface_kind-IsCellular t iface driver in
      (
        λ h w. absurd (cc (h, same.1 w)),
        λ no. elim (Bool-cases (iface_kind t iface driver == "cellular")) [
          | inl e ↦ absurd (no (same.0 e))
          | inr e ↦ e
        ],
      )

  judged-MayFetch :
      (proc_text : Option String) (driver_of : String → Option String) (p : Probe)
      → (is_allowed (judge_route t min_quality timeout driver_of (lowest_default t proc_text) p)
          ≡ true)
        ↔ MayFetch t min_quality proc_text driver_of p
  judged-MayFetch proc_text driver_of p =
      let judged = judge_route-allows driver_of (lowest_default t proc_text) p in
      (
        λ h. elim (judged.0 h) [
          | inl no_route ↦ inl no_route
          | inr (r, chosen, inl other) ↦
              inr (r, chosen, inl ((not-IsCellular r.iface (driver_of r.iface)).0 other))
          | inr (r, chosen, inr (out, err, q, e, reads, enough)) ↦
              let quality = (parse_signal_quality-IsQuality t out q).0 reads in
              inr (r, chosen, inr (out, err, q, e, quality, enough))
        ],
        λ w. judged.1 (elim w [
          | inl no_route ↦ inl no_route
          | inr (r, chosen, inl other) ↦
              inr (r, chosen, inl ((not-IsCellular r.iface (driver_of r.iface)).1 other))
          | inr (r, chosen, inr (out, err, q, e, quality, enough)) ↦
              let reads = (parse_signal_quality-IsQuality t out q).1 quality in
              inr (r, chosen, inr (out, err, q, e, reads, enough))
        ]),
      )

-- The cellular gate allows a fetch exactly if there is no default route, or its device is not cellular, or
-- the probe is run and ends with code 0, and the first line with the key of the signal quality has a number
-- from 0 to 100 after its colon that is at least the minimum. A device is cellular if its name starts as
-- cellular devices' do, or it has a cellular driver, and its name does not start as Wi-Fi devices' do.
pub may_fetch-allows :
    (t : Texts) (min_quality : ℤ) (timeout : String) (proc_text : Option String)
    (driver_of : String → Option String) (probe : Probe)
    → (is_allowed (may_fetch t min_quality timeout proc_text driver_of probe) ≡ true)
      ↔ MayFetch t min_quality proc_text driver_of probe
unfolding may_fetch
may_fetch-allows t min_quality timeout proc_text driver_of probe =
    judged-MayFetch t min_quality timeout proc_text driver_of probe
