-- ===== src/Net.antt =====
-- unoq_ota/net.py and unoq_ota/gates: the IPv4 default route, the kind of its device, and the gates that
-- ask for it. What Python does on texts, the files of the kernel and the probe command are parameters.
pub mod Lowest
pub mod Rows
pub mod Signal
pub mod Routes
use Prim.Native.Char.{code}
use Prim.Native.String
use unoq_ota.Prelude.{
  ℕ, ℤ, pos, negsuc, ◌-◌, ◌/◌, ◌%◌, ◌^◌, String, ◌<>◌, Bool, true, false, not, ◌&&◌, ◌||◌, Option,
  none, some, List, [], ◌∷◌, ◌++◌, leb_ℤ, ltb_ℤ, eqb, ◌==◌, if◌then◌else◌, contains,
}
use unoq_ota.Outcome.{Outcome, ok, raised, Raised}

-- Methods of `str`, and `int(s)` and `int(s, 16)`, none where these raise.
pub record Texts : Type 0 where
  pub splitlines : String → List String
  pub split : String → List String
  pub strip : String → String
  pub lower : String → String
  pub is_within : String → String → Bool  -- `part in text`
  pub after_colon : String → String  -- `text.partition(":")[2]`
  pub int_of : String → Option ℤ
  pub int_of_hex : String → Option ℤ
  pub str_of : ℤ → String

unfoldable pub starts_with : String → String → Bool
starts_with s String.[] = true
starts_with String.[] (String.◌∷◌ c p) = false
starts_with (String.◌∷◌ b s) (String.◌∷◌ c p) =
    let rest = starts_with s p in eqb (code b) (code c) && rest

-- `s.startswith(prefixes)` with a tuple
abbrev pub starts_with_any : String → List String → Bool
starts_with_any s [] = false
starts_with_any s (p ∷ ps) = starts_with s p || starts_with_any s ps

pub record Route : Type 0 where
  pub iface : String
  pub metric : ℤ
  pub gateway : Option String

-- `(raw >> (8 * k)) & 0xFF`; a negative number is an infinite row of the complement's bits
abbrev pub byte_at : ℕ → ℤ → ℕ
byte_at k (pos n) = n / 256 ^ k % 256
byte_at k (negsuc n) = 255 - n / 256 ^ k % 256

abbrev pub wifi_prefixes : List String
wifi_prefixes = "wlan" ∷ "mlan" ∷ "wifi" ∷ []

abbrev pub cellular_prefixes : List String
cellular_prefixes = "wwan" ∷ "rmnet" ∷ "usb0" ∷ []

abbrev pub cellular_drivers : List String
cellular_drivers = "cdc_ether" ∷ "cdc_ncm" ∷ "cdc_mbim" ∷ "qmi_wwan" ∷ "rndis_host" ∷ []

abbrev pub ethernet_prefixes : List String
ethernet_prefixes = "eth" ∷ "enx" ∷ "ens" ∷ "enp" ∷ "eno" ∷ []

-- `min(routes, key=metric)`, which takes the first of the smallest
unfoldable pub lowest : Route → List Route → Route
lowest r [] = r
lowest r (s ∷ rs) = lowest (if ltb_ℤ s.metric r.metric then s else r) rs

abbrev pub lowest_of : List Route → Option Route
lowest_of [] = none
lowest_of (r ∷ rs) = some (lowest r rs)

abbrev pub or_empty : Option String → String
or_empty none = ""
or_empty (some s) = s

-- A gateway of all zeros is none.
abbrev pub given_gateway : Option String → Option String
given_gateway none = none
given_gateway (some g) = if g == "0.0.0.0" then none else some g

module _ (t : Texts) where
  abbrev pub dotted : ℤ → String
  dotted n =
      t.str_of (pos (byte_at 0 n))
      <> "."
      <> t.str_of (pos (byte_at 1 n))
      <> "."
      <> t.str_of (pos (byte_at 2 n))
      <> "."
      <> t.str_of (pos (byte_at 3 n))

  abbrev pub dotted_if_read : Option ℤ → Option String
  dotted_if_read none = none
  dotted_if_read (some n) = some (dotted n)

  unfoldable pub ipv4_from_proc_hex : String → Option String
  ipv4_from_proc_hex hex = dotted_if_read (t.int_of_hex hex)

  abbrev pub route_if_metric : String → Option ℤ → String → List Route
  route_if_metric iface none gateway_hex = []
  route_if_metric iface (some m) gateway_hex =
      record { iface = iface; metric = m; gateway = given_gateway (ipv4_from_proc_hex gateway_hex) }
      ∷ []

  -- A line of at least eight columns, in a list of at most one route.
  abbrev pub row_of : List String → List Route
  row_of (iface ∷ dest ∷ gateway_hex ∷ flags ∷ ref ∷ use_count ∷ metric ∷ mask ∷ rest) =
      if dest == "00000000" then route_if_metric iface (t.int_of metric) gateway_hex else []
  row_of _ = []

  unfoldable pub rows_of : List String → List Route
  unfolding ipv4_from_proc_hex
  rows_of [] = []
  rows_of (line ∷ lines) = let rest = rows_of lines in row_of (t.split line) ++ rest

  abbrev pub after_header : List String → List Route
  after_header [] = []
  after_header (header ∷ lines) = rows_of lines

  unfoldable pub parse_default_route_rows : String → List Route
  unfolding rows_of
  parse_default_route_rows proc_text = after_header (t.splitlines proc_text)

  -- `_lowest_default`, given what reading the kernel's table gives: none where that raises OSError
  unfoldable pub lowest_default : Option String → Option Route
  unfolding parse_default_route_rows lowest
  lowest_default none = none
  lowest_default (some proc_text) = lowest_of (parse_default_route_rows proc_text)

  unfoldable pub iface_kind : String → Option String → String
  unfolding starts_with
  iface_kind iface driver =
      if starts_with_any (t.lower iface) wifi_prefixes
      then "wifi"
      else if starts_with_any (t.lower iface) cellular_prefixes
      then "cellular"
      else if contains cellular_drivers (t.lower (or_empty driver))
      then "cellular"
      else if starts_with_any (t.lower iface) ethernet_prefixes
      then "ethernet"
      else "other"

  abbrev pub percent : Option ℤ → Option ℤ
  percent none = none
  percent (some n) = if leb_ℤ (pos 0) n && leb_ℤ n (pos 100) then some n else none

  unfoldable pub quality_in : List String → Option ℤ
  quality_in [] = none
  quality_in (raw ∷ lines) =
      let rest = quality_in lines in
      if t.is_within "modem.generic.signal-quality.value" (t.strip raw)
      then percent (t.int_of (t.strip (t.after_colon (t.strip raw))))
      else rest

  unfoldable pub parse_signal_quality : String → Option ℤ
  unfolding quality_in
  parse_signal_quality keyvalue = quality_in (t.splitlines keyvalue)

-- What running the probe gives: a result, `TimeoutExpired`, OSError, or another exception.
pub data Probe : Type 0 where
  ran : ℤ → String → String → Probe  -- the exit code, and `stdout` and `stderr` with None as ""
  timed_out : Probe
  not_run : String → Probe
  broke : Raised → Probe

abbrev pub is_zero : ℤ → Bool
is_zero (pos ℕ.zero) = true
is_zero n = false

abbrev pub first_or : String → List String → String
first_or other [] = other
first_or other (l ∷ ls) = l

-- `CellularSignalGate`
module _ (t : Texts) (min_quality : ℤ) (timeout : String) where
  abbrev pub judge_quality : Option ℤ → Bool × String
  judge_quality none = (false, "no signal-quality.value in mmcli")
  judge_quality (some q) =
      (leb_ℤ min_quality q, "quality=" <> t.str_of q <> " min=" <> t.str_of min_quality)

  -- `stderr or stdout or ""`
  abbrev pub failure_of : ℤ → String → String → String
  failure_of code out err =
      "mmcli failed: "
      <> first_or ("exit " <> t.str_of code)
          (t.splitlines (t.strip (if err == "" then out else err)))

  abbrev pub judge_probe : Probe → Outcome (Bool × String)
  judge_probe timed_out = ok (false, "mmcli timed out after " <> timeout <> "s")
  judge_probe (not_run e) = ok (false, "mmcli failed: " <> e)
  judge_probe (broke e) = raised e
  judge_probe (ran code out err) =
      if is_zero code
      then ok (judge_quality (parse_signal_quality t out))
      else ok (false, failure_of code out err)

  abbrev pub judge_kind : String → String → Probe → Outcome (Bool × String)
  judge_kind iface kind probe =
      if kind == "cellular"
      then judge_probe probe
      else ok (true, "default route " <> iface <> " is " <> kind)

  abbrev pub judge_route : (String → Option String) → Option Route → Probe → Outcome (Bool × String)
  judge_route driver_of none probe = ok (true, "no default route")
  judge_route driver_of (some r) probe =
      judge_kind r.iface (iface_kind t r.iface (driver_of r.iface)) probe

  -- `may_fetch`: the kernel's table, the driver of a device, and what the probe gives where it is run
  unfoldable pub may_fetch :
      Option String → (String → Option String) → Probe → Outcome (Bool × String)
  unfolding lowest_default iface_kind parse_signal_quality
  may_fetch proc_text driver_of probe = judge_route driver_of (lowest_default t proc_text) probe

-- `may_flash` of both gates, and `may_fetch` of `AlwaysGate`.
abbrev pub always_allowed : Bool × String
always_allowed = (true, "always allowed")
