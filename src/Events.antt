-- ===== src/Events.antt =====
-- unoq_ota/events.py: the event journal. JSON, the clock's reading, the file system and the report
-- server are a parameter; every event it made is posted in the order of the file.
pub mod Lines
pub mod Flush
pub mod Delivery
use unoq_ota.Prelude.{
  ℕ, ℤ, pos, suc, ◌+◌, String, Bool, true, false, Option, none, some, List, [], ◌∷◌, ◌++◌, length,
  drop, ltb, eqb, ◌==◌, if◌then◌else◌,
}
use unoq_ota.Outcome.{Outcome, ok, raised}
use unoq_ota.Python.{Value, str, obj, Fields, field, end}
use unoq_ota.Artifact.{Bytes}

-- The journal's file and its offset file, none where there is no such file or where the text of the
-- latter cannot be decoded, and the events that the server has accepted, the oldest first.
pub record Journal : Type 0 where
  pub contents : Option Bytes
  pub offset : Option String
  pub posted : List Value

pub record Env : Type 0 where
  pub report_url : Option String
  pub device_id : String
  pub utc_now : Journal → String
  pub parse : Bytes → Option Value  -- none where decoding or `json.loads` raises
  pub dumps : Fields → Bytes  -- compact JSON, encoded
  pub int_of : String → Option ℤ  -- `int(text.strip())`, none where it raises
  pub str_of : ℕ → String
  pub read : Journal → Outcome Bytes
  pub append : Journal → Bytes → Outcome (Unit {0}) × Option Bytes  -- and what the file then holds
  pub write_offset : Journal → String → Outcome (Unit {0}) × Option String  -- and what the file then holds
  pub post : Journal → Value → Outcome (Unit {0})

-- Code that may raise; what was done >> stays done.
abbrev pub Action : Type 0
Action = Journal → Outcome (Unit {0}) × Journal

abbrev pub proceed : Outcome (Unit {0}) → Action → Action
proceed (ok t) f j = f j
proceed (raised e) f j = (raised e, j)

infixl 10 ◌>>◌
abbrev pub ◌>>◌ : Action → Action → Action
◌>>◌ m n j = let (r, j') = m j in proceed r n j'

abbrev pub cons_first : ℕ → List Bytes → List Bytes
cons_first b [] = []
cons_first b (l ∷ ls) = (b ∷ l) ∷ ls

-- The lines that a newline ends, which the loop of `flush_unsent` finds one after another.
unfoldable pub complete_lines : Bytes → List Bytes
complete_lines [] = []
complete_lines (b ∷ bs) =
    let rest = complete_lines bs in if eqb b 10 then [] ∷ rest else cons_first b rest

abbrev pub natural : Option ℤ → ℕ
natural (some (pos n)) = n
natural _ = 0

abbrev pub if_within : ℕ → ℕ → ℕ
if_within size offset = if ltb size offset then 0 else offset

abbrev pub contents_of : Option Bytes → Bytes
contents_of none = []
contents_of (some b) = b

-- `not self.report_url`
abbrev pub has_url : Option String → Bool
has_url none = false
has_url (some u) = if u == "" then false else true

module _ (env : Env) where
  unfoldable pub read_offset : Option String → ℕ
  read_offset none = 0
  read_offset (some s) = natural (env.int_of s)

  unfoldable pub write_offset : ℕ → Action
  write_offset n j =
      let (r, held) = env.write_offset j (env.str_of n) in (r, record j { offset = held })

  abbrev pub accept : Outcome (Unit {0}) → Value → Action
  accept (ok t) e j = (ok tt, record j { posted = j.posted ++ (e ∷ []) })
  accept (raised x) e j = (raised x, j)

  unfoldable pub post : Value → Action
  post e j = accept (env.post j e) e j

  -- One round of the loop, where the line ends at `new_offset`. A line that is no JSON is passed over.
  unfoldable pub send_line : Option Value → ℕ → Action
  unfolding write_offset post
  send_line none new_offset = write_offset new_offset
  send_line (some e) new_offset = post e >> write_offset new_offset

  unfoldable pub send_lines : ℕ → List Bytes → Action
  unfolding send_line
  send_lines offset [] j = (ok tt, j)
  send_lines offset (raw ∷ lines) j =
      let new_offset = offset + (length raw + 1) in
      (send_line (env.parse raw) new_offset >> send_lines new_offset lines) j

  abbrev pub send_data : Outcome Bytes → Action
  send_data (raised e) j = (ok tt, j)
  send_data (ok bytes) j =
      let offset = if_within (length bytes) (read_offset j.offset) in
      send_lines offset (complete_lines (drop offset bytes)) j

  unfoldable pub flush_unsent : Action
  unfolding read_offset send_lines complete_lines
  flush_unsent j = if has_url env.report_url then send_data (env.read j) j else (ok tt, j)

  -- `event`: what every event carries, and then its own fields.
  abbrev pub event_of : Fields → Journal → Fields
  event_of fields j = field "ts" (str (env.utc_now j)) (field "device" (str env.device_id) fields)

  unfoldable pub append : Fields → Action
  append e j =
      let (r, held) = env.append j (env.dumps e ++ (10 ∷ [])) in (r, record j { contents = held })

  abbrev pub after_append : Outcome (Unit {0}) → Journal → Journal
  after_append (raised e) j = j
  after_append (ok t) j = (flush_unsent j).1

  -- `record`, which has nothing to return and raises nothing
  unfoldable pub record_event : Fields → Journal → Journal
  unfolding append flush_unsent
  record_event fields j = let (r, j') = append (event_of fields j) j in after_append r j'

  -- `record` for one event after another.
  unfoldable pub record_all : List Fields → Journal → Journal
  unfolding record_event
  record_all [] j = j
  record_all (e ∷ l) j = record_all l (record_event e j)

-- The first dict among texts, which are the journal's lines from the end; those are stripped.
module _ (loads : String → Option Value) (strip : String → String) where
  abbrev pub dict_or : Option Value → Option Fields → Option Fields
  dict_or (some (obj d)) rest = some d
  dict_or _ rest = rest

  unfoldable pub first_dict : List String → Option Fields
  first_dict [] = none
  first_dict (raw ∷ lines) =
      let rest = first_dict lines in
      if strip raw == "" then rest else dict_or (loads (strip raw)) rest

  abbrev pub last_among : List String → List String → Option Fields
  last_among [] acc = first_dict acc
  last_among (l ∷ ls) acc = last_among ls (l ∷ acc)

  -- `last`, given what reading the journal's lines gave: none where that raises OSError.
  unfoldable pub last_event : Option (List String) → Option Fields
  unfolding first_dict
  last_event none = none
  last_event (some lines) = last_among lines []
