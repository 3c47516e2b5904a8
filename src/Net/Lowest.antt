-- ===== src/Net/Lowest.antt =====
-- `min` of the routes by their metrics (unoq_ota/net.py).
use unoq_ota.Prelude.{
  ℤ, ltb_ℤ, ◌≡◌, inl, inr, refl, sym, ap, ◌∙◌, true, false, some, List, [], ◌∷◌, ◌++◌, Every,
  Bool-cases, arith,
}
use unoq_ota.Net.{Route, lowest, lowest_of}

abbrev pub IsAbove : Route → Route → Type 0
IsAbove r s = ltb_ℤ r.metric s.metric ≡ true

abbrev pub IsNotBelow : Route → Route → Type 0
IsNotBelow r s = ltb_ℤ s.metric r.metric ≡ false

-- The route stands in the list, all before it have a larger metric, and none after it a smaller one.
pub record IsLowestOf (r : Route) (rs : List Route) : Type 0 where
  pub before : List Route
  pub after : List Route
  pub splits : rs ≡ before ++ (r ∷ after)
  pub above : Every (IsAbove r) before
  pub not_below : Every (IsNotBelow r) after

below_of : (a b c : ℤ) → ltb_ℤ b a ≡ false → ltb_ℤ b c ≡ true → ltb_ℤ a c ≡ true
below_of a b c h k = ground arith

above_of : (a b c : ℤ) → ltb_ℤ a b ≡ true → ltb_ℤ c b ≡ false → ltb_ℤ a c ≡ true
above_of a b c h k = ground arith

not_below_itself : (a : ℤ) → ltb_ℤ a a ≡ false
not_below_itself a = ground arith

not_below_of : (a b : ℤ) → ltb_ℤ a b ≡ true → ltb_ℤ b a ≡ false
not_below_of a b h = ground arith

-- A route that is not below the first changes nothing behind it.
skip_route :
    (low r s : Route) (rs before after : List Route)
    → r ∷ rs ≡ before ++ (low ∷ after)
    → Every (IsAbove low) before
    → Every (IsNotBelow low) after
    → ltb_ℤ s.metric r.metric ≡ false
    → IsLowestOf low (r ∷ s ∷ rs)
skip_route low r s rs [] after splits above not_below h =
    let first : r ≡ low = cc in
    let rest : rs ≡ after = cc in
    record {
      before = [];
      after = s ∷ after;
      splits = rw (first, rest) refl;
      above = tt;
      not_below = (ap (λ (x : Route). ltb_ℤ s.metric x.metric) (sym first) ∙ h, not_below);
    }
skip_route low r s rs (b ∷ bs) after splits (above, aboves) not_below h =
    let first : r ≡ b = cc in
    let rest : rs ≡ bs ++ (low ∷ after) = cc in
    let under : ltb_ℤ low.metric r.metric ≡ true =
      ap (λ (x : Route). ltb_ℤ low.metric x.metric) first ∙ above in
    record {
      before = b ∷ s ∷ bs;
      after = after;
      splits = ap (λ x. x ∷ s ∷ rs) first ∙ ap (λ l. b ∷ s ∷ l) rest;
      above = (above, (above_of low.metric r.metric s.metric under h, aboves));
      not_below = not_below;
    }

lowest-IsLowestOf :
    (r : Route) (rs : List Route) → IsLowestOf (lowest r rs) (r ∷ rs) × IsNotBelow (lowest r rs) r
unfolding lowest
lowest-IsLowestOf r [] = (
  record { before = []; after = []; splits = refl; above = tt; not_below = tt },
  not_below_itself r.metric,
)
lowest-IsLowestOf r (s ∷ rs) = elim (Bool-cases (ltb_ℤ s.metric r.metric)) [
  | inl e ↦
      let (w, n) = lowest-IsLowestOf s rs in
      let low = lowest s rs in
      let under = below_of low.metric s.metric r.metric n e in
      rw (lowest, e)
        (
          record {
            before = r ∷ w.before;
            after = w.after;
            splits = ap (λ l. r ∷ l) w.splits;
            above = (under, w.above);
            not_below = w.not_below;
          },
          not_below_of low.metric r.metric under,
        )
  | inr e ↦
      let (w, n) = lowest-IsLowestOf r rs in
      rw (lowest, e)
        (skip_route (lowest r rs) r s rs w.before w.after w.splits w.above w.not_below e, n)
]

pub lowest_of-IsLowestOf : (rs : List Route) (r : Route) → lowest_of rs ≡ some r → IsLowestOf r rs
lowest_of-IsLowestOf [] r h = absurd (cc h)
lowest_of-IsLowestOf (s ∷ rs) r h =
    let same : lowest s rs ≡ r = cc in rw (← same) (lowest-IsLowestOf s rs).0
