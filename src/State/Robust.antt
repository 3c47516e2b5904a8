-- ===== src/State/Robust.antt =====
-- What `load` makes of a damaged file.
use unoq_ota.Prelude.{◌≡◌, ◌≢◌, String, some, arith, eq_iff, ◌==◌, if◌then◌else◌}
use unoq_ota.Python.{Python, Value, Fields, end, field, obj, find_field}
use unoq_ota.State.{state_of}

-- The dictionary with `v` under `k`, whatever it held there.
abbrev pub set_field : String → Value → Fields → Fields
set_field k v end = field k v end
set_field k v (field j w d) = if j == k then field j v d else field j w (set_field k v d)

find_field-set_field_ne :
    (k j : String) (v : Value) (d : Fields)
    → k ≢ j
    → find_field j (set_field k v d) ≡ find_field j d
find_field-set_field_ne k j v end h = ground (arith, eq_iff k j)
find_field-set_field_ne k j v (field i w d) h =
    ground (arith, find_field-set_field_ne k j v d, eq_iff i k, eq_iff i j, eq_iff k j)

-- A value of any shape under another key leaves the poison list that is read as it was.
pub poisoned-state_of_damaged :
    (py : Python) (k : String) (v : Value) (raw : Fields)
    → k ≢ "poisoned"
    → (state_of py (some (obj (set_field k v raw)))).poisoned
      ≡ (state_of py (some (obj raw))).poisoned
unfolding state_of
poisoned-state_of_damaged py k v raw h = rw (find_field-set_field_ne k "poisoned" v raw h)
