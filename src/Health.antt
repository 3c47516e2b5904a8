-- ===== src/Health.antt =====
-- unoq_ota/health/version_report.py: the verdict on the lines that the monitor gave. The regular
-- expression on a line is a parameter, and so are the lines.
pub mod Verdicts
use unoq_ota.Prelude.{
  ℕ, zero, suc, ◌+◌, String, Bool, true, false, Option, none, some, List, [], ◌∷◌, ◌++◌, ◌==◌, ltb,
  length, if◌then◌else◌, Dict, lookup, insert, ◌&&◌,
}
use unoq_ota.Outcome.{Outcome, ok, raised, other_error, ◌>>=◌}

-- A version and a sequence number, which the expression makes of digits.
abbrev pub Report : Type 0
Report = String × ℕ

-- `_reports`, on the lines of `_collect`
unfoldable pub reports_in : {Line : Type 0} → (Line → Option Report) → List Line → List Report
reports_in parse_health_line [] = []
reports_in parse_health_line (l ∷ lines) =
    let rest = reports_in parse_health_line lines in
    elim (parse_health_line l) [ none ↦ rest | some r ↦ r ∷ rest ]

-- no step backwards
unfoldable pub never_falls : ℕ → List ℕ → Bool
never_falls x [] = true
never_falls x (y ∷ seqs) = let rest = never_falls y seqs in if ltb y x then false else rest

abbrev pub last_of : ℕ → List ℕ → ℕ
last_of x [] = x
last_of x (y ∷ seqs) = last_of y seqs

-- `_progressed`: `seqs[-1]` of no sequence numbers is an IndexError
unfoldable pub progressed : List ℕ → Outcome Bool
unfolding never_falls
progressed [] = raised (other_error "list index out of range")
progressed (x ∷ seqs) = ok (if never_falls x seqs then ltb x (last_of x seqs) else false)

-- `version == self.expected_version`
abbrev pub is_expected : Option String → String → Bool
is_expected none v = false
is_expected (some e) v = v == e

unfoldable pub matching : Option String → List Report → List ℕ
matching expected [] = []
matching expected ((v, seq) ∷ reports) =
    let rest = matching expected reports in if is_expected expected v then seq ∷ rest else rest

unfoldable pub wait_healthy : ℕ → Option String → List Report → Outcome Bool
unfolding matching progressed
wait_healthy min_reports expected reports =
    let seqs = matching expected reports in
    if ltb (length seqs) min_reports then ok false else progressed seqs

abbrev or_empty : Option (List ℕ) → List ℕ
or_empty none = []
or_empty (some l) = l

-- `by_version`, from what it holds already
unfoldable pub group : List Report → Dict (List ℕ) → Dict (List ℕ)
group [] d = d
group ((v, seq) ∷ reports) d = group reports (insert v (or_empty (lookup v d) ++ seq ∷ []) d)

-- `alive`: the versions with enough reports that progressed
unfoldable pub alive_among : ℕ → Dict (List ℕ) → Outcome (List String)
unfolding progressed
alive_among min_reports [] = ok []
alive_among min_reports ((v, seqs) ∷ d) =
    let rest = alive_among min_reports d in
    if ltb (length seqs) min_reports
    then rest
    else (do moved ← progressed seqs; others ← rest; ok (if moved then v ∷ others else others))

abbrev only : List String → Option String
only (v ∷ []) = some v
only _ = none

unfoldable pub wait_alive : ℕ → List Report → Outcome (Option String)
unfolding group alive_among
wait_alive min_reports reports = do
  alive ← alive_among min_reports (group reports [])
  ok (only alive)
