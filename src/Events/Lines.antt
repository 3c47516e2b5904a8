-- ===== src/Events/Lines.antt =====
-- The lines of a file whose last byte, if any, is a newline.
use unoq_ota.Prelude.{
  ℕ, suc, ◌+◌, ◌≤◌, ◌≡◌, refl, ap, sym, ◌∙◌, Bool, true, false, List, [], ◌∷◌, ◌++◌, length, drop,
  eqb, arith, Bool-cases, inl, inr,
}
use unoq_ota.Artifact.{Bytes}
use unoq_ota.Events.{complete_lines, cons_first}

abbrev pub ends_line : Bytes → Bool
ends_line [] = true
ends_line (b ∷ []) = eqb b 10
ends_line (b ∷ c ∷ l) = ends_line (c ∷ l)

pub complete_lines-newline :
    (b : ℕ) (l : Bytes) → eqb b 10 ≡ true → complete_lines (b ∷ l) ≡ [] ∷ complete_lines l
unfolding complete_lines
complete_lines-newline b l h = rw h refl

pub complete_lines-other :
    (b : ℕ) (l : Bytes)
    → eqb b 10 ≡ false
    → complete_lines (b ∷ l) ≡ cons_first b (complete_lines l)
unfolding complete_lines
complete_lines-other b l h = rw h refl

cons_first-append :
    (b : ℕ) (l : Bytes) (xs ys : List Bytes)
    → cons_first b ((l ∷ xs) ++ ys) ≡ cons_first b (l ∷ xs) ++ ys
cons_first-append b l xs ys = refl

-- A file that ends a line, and is not empty, has a line.
some_line :
    (b : ℕ) (l : Bytes)
    → ends_line (b ∷ l) ≡ true
    → (x : Bytes) × (xs : List Bytes) × (complete_lines (b ∷ l) ≡ x ∷ xs)
some_line b [] h = ([], complete_lines [], complete_lines-newline b [] h)
some_line b (c ∷ l) h = elim (Bool-cases (eqb b 10)) [
  | inl e ↦ ([], complete_lines (c ∷ l), complete_lines-newline b (c ∷ l) e)
  | inr e ↦
      let (x, xs, more) = some_line c l h in
      (b ∷ x, xs, complete_lines-other b (c ∷ l) e ∙ ap (cons_first b) more)
]

pub complete_lines-append :
    (a b : Bytes)
    → ends_line a ≡ true
    → complete_lines (a ++ b) ≡ complete_lines a ++ complete_lines b
unfolding complete_lines
complete_lines-append [] b h = refl
complete_lines-append (x ∷ []) b h =
    rw (complete_lines-newline x b h, complete_lines-newline x [] h) refl
complete_lines-append (x ∷ y ∷ a) b h = elim (Bool-cases (eqb x 10)) [
  | inl e ↦
      complete_lines-newline x (y ∷ a ++ b) e
      ∙ ap (λ l. [] ∷ l) (complete_lines-append (y ∷ a) b h)
      ∙ ap (λ l. l ++ complete_lines b) (sym (complete_lines-newline x (y ∷ a) e))
  | inr e ↦
      let (l, ls, more) = some_line y a h in
      complete_lines-other x (y ∷ a ++ b) e
      ∙ ap (cons_first x) (complete_lines-append (y ∷ a) b h ∙ ap (λ k. k ++ complete_lines b) more)
      ∙ ap (λ k. cons_first x k ++ complete_lines b) (sym more)
      ∙ ap (λ k. k ++ complete_lines b) (sym (complete_lines-other x (y ∷ a) e))
]

pub ends_line-append :
    (a b : Bytes) → ends_line a ≡ true → ends_line b ≡ true → ends_line (a ++ b) ≡ true
ends_line-append [] b ha hb = hb
ends_line-append (x ∷ []) [] ha hb = ha
ends_line-append (x ∷ []) (y ∷ b) ha hb = hb
ends_line-append (x ∷ y ∷ a) b ha hb = ends_line-append (y ∷ a) b ha hb

cons_first-nil : (b : ℕ) (xs : List Bytes) → cons_first b xs ≡ [] → xs ≡ []
cons_first-nil b [] h = refl
cons_first-nil b (l ∷ ls) h = absurd (cc h)

cons_first-cons :
    (b : ℕ) (xs : List Bytes) (line : Bytes) (lines : List Bytes)
    → cons_first b xs ≡ line ∷ lines
    → (l : Bytes) × (xs ≡ l ∷ lines) × (line ≡ b ∷ l)
cons_first-cons b [] line lines h = absurd (cc h)
cons_first-cons b (l ∷ ls) line lines h = (l, cc, cc)

-- A text without a newline, and then a newline, is one line.
pub complete_lines-line :
    (a : Bytes) → complete_lines a ≡ [] → complete_lines (a ++ (10 ∷ [])) ≡ a ∷ []
unfolding complete_lines
complete_lines-line [] h = refl
complete_lines-line (x ∷ a) h = elim (Bool-cases (eqb x 10)) [
  | inl e ↦ absurd (cc (h, complete_lines-newline x a e))
  | inr e ↦
      let shorter =
        complete_lines-line a
          (cons_first-nil x (complete_lines a) (sym (complete_lines-other x a e) ∙ h)) in
      complete_lines-other x (a ++ (10 ∷ [])) e ∙ ap (cons_first x) shorter
]

pub ends_line-line : (a : Bytes) → ends_line (a ++ (10 ∷ [])) ≡ true
ends_line-line [] = refl
ends_line-line (x ∷ []) = refl
ends_line-line (x ∷ y ∷ a) = ends_line-line (y ∷ a)

-- What is left after the first line.
pub record IsRest (rest : Bytes) (line : Bytes) (lines : List Bytes) : Type 0 where
  pub fits : length line + 1 ≤ length rest
  pub left : complete_lines (drop (length line + 1) rest) ≡ lines
  pub ends : ends_line (drop (length line + 1) rest) ≡ true

ends_line-tail : (b : ℕ) (l : Bytes) → ends_line (b ∷ l) ≡ true → ends_line l ≡ true
ends_line-tail b [] h = refl
ends_line-tail b (c ∷ l) h = h

drop-suc : (b : ℕ) (l : Bytes) (n : ℕ) → drop (suc n + 1) (b ∷ l) ≡ drop (n + 1) l
drop-suc b l n = let step : suc n + 1 ≡ suc (n + 1) = omega arith in ap (λ k. drop k (b ∷ l)) step

pub complete_lines-IsRest :
    (rest line : Bytes) (lines : List Bytes)
    → complete_lines rest ≡ line ∷ lines
    → ends_line rest ≡ true
    → IsRest rest line lines
unfolding complete_lines
complete_lines-IsRest [] line lines h ends = absurd (cc h)
complete_lines-IsRest (b ∷ rest) line lines h ends = elim (Bool-cases (eqb b 10)) [
  | inl e ↦
      let first : [] ∷ complete_lines rest ≡ line ∷ lines =
        sym (complete_lines-newline b rest e) ∙ h in
      let none_before : [] ≡ line = cc in
      let after : complete_lines rest ≡ lines = cc in
      rw (← none_before)
        (record { fits = omega arith; left = after; ends = ends_line-tail b rest ends })
  | inr e ↦
      let (l, more, line_is) =
        cons_first-cons b (complete_lines rest) line lines
          (sym (complete_lines-other b rest e) ∙ h) in
      let r = complete_lines-IsRest rest l lines more (ends_line-tail b rest ends) in
      let same : drop (length line + 1) (b ∷ rest) ≡ drop (length l + 1) rest =
        rw line_is (drop-suc b rest (length l)) in
      record {
        fits = rw line_is (omega (arith, r.fits));
        left = ap complete_lines same ∙ r.left;
        ends = ap ends_line same ∙ r.ends;
      }
]
