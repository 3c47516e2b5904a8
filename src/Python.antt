-- ===== src/Python.antt =====
-- Values of Python that come from JSON, and the parts of Python's own library that the package
-- calls on them.
use unoq_ota.Prelude.{
  ℤ, pos, String, ◌≡◌, Bool, true, false, Option, none, some, ◌==◌, if◌then◌else◌,
}

-- `float` holds the literal of the number, which only the library's conversions read.
mutual
  pub data Value : Type 0 where
    null : Value
    bool : Bool → Value
    int : ℤ → Value
    float : String → Value
    str : String → Value
    obj : Fields → Value
    arr : Items → Value

  pub data Fields : Type 0 where
    end : Fields
    field : String → Value → Fields → Fields

  pub data Items : Type 0 where
    nil : Items
    cons : Value → Items → Items

-- `k in d` and `d[k]`
abbrev pub find_field : String → Fields → Option Value
find_field k end = none
find_field k (field j v d) = if j == k then some v else find_field k d

abbrev pub or_null : Option Value → Value
or_null none = null
or_null (some v) = v

-- `d.get(k)`
abbrev pub get_field : String → Fields → Value
get_field k d = or_null (find_field k d)

-- `v if isinstance(v, str) else None`
abbrev pub as_str : Value → Option String
as_str (str s) = some s
as_str _ = none

-- `v if isinstance(v, dict) else None`
abbrev pub as_dict : Value → Option Fields
as_dict (obj d) = some d
as_dict _ = none

-- `v if isinstance(v, int) and not isinstance(v, bool) else None`
abbrev pub as_int : Value → Option ℤ
as_int (int n) = some n
as_int _ = none

-- What the package uses of Python's standard library. `loads` is none where `json.loads` raises
-- ValueError; `int_of_*` are none where `int()` raises ValueError or OverflowError.
pub record Python : Type 1 where
  pub Text : Type 0
  pub loads : Text → Option Value
  pub dumps : Value → Text
  pub int_of_str : String → Option ℤ
  pub int_of_float : String → Option ℤ
  pub int_of_literal : String → Option ℤ

-- The documented round trip of the `json` module, for values built of what JSON has.
pub record IsLawful (py : Python) : Type 0 where
  pub loads-dumps : (v : Value) → py.loads (py.dumps v) ≡ some v

-- `int(v)`, none where it raises ValueError, TypeError or OverflowError.
abbrev pub to_int : Python → Value → Option ℤ
to_int py (bool true) = some (pos 1)
to_int py (bool false) = some (pos 0)
to_int py (int n) = some n
to_int py (float f) = py.int_of_float f
to_int py (str s) = py.int_of_str s
to_int py _ = none
