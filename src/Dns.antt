-- ===== src/Dns.antt =====
-- unoq_ota/dns.py: the rewrite of resolv.conf on a cellular default route. Texts, `ipaddress`, the
-- kernel's table and the file are parameters.
pub mod Repair
pub mod Stable
use Prim.Native.Char.{code}
use Prim.Native.String
use unoq_ota.Prelude.{
  ℕ, String, ◌<>◌, Bool, true, false, not, ◌&&◌, ◌||◌, Option, none, some, List, [], ◌∷◌, ◌++◌, eqb,
  ◌==◌, if◌then◌else◌, contains,
}
use unoq_ota.Outcome.{Outcome, ok, raised, Raised, message}
use unoq_ota.Net.{Texts, Route, starts_with, lowest_default, iface_kind}

-- What `ipaddress.ip_address` gives, with the first three bytes of `packed`.
pub record Address : Type 0 where
  pub is_loopback : Bool
  pub is_link_local : Bool
  pub is_unspecified : Bool
  pub is_multicast : Bool
  pub is_private : Bool
  pub is_version_4 : Bool
  pub network : String

abbrev pub public_fallback : String
public_fallback = "8.8.8.8"

abbrev pub second_of : List String → List String
second_of (word ∷ name ∷ rest) = name ∷ []
second_of _ = []

-- `gateway` is a text that is not empty.
abbrev pub is_given : Option String → Bool
is_given none = false
is_given (some g) = not (g == "")

abbrev pub is_gateway : String → Option String → Bool
is_gateway ns none = false
is_gateway ns (some g) = not (g == "") && ns == g

abbrev pub gateway_list : Option String → List String
gateway_list none = []
gateway_list (some g) = if g == "" then [] else g ∷ []

-- The gateway, and then the fallback if it is not there.
unfoldable pub planned_for : Option String → List String
planned_for gateway =
    let planned = gateway_list gateway in
    if contains planned public_fallback then planned else planned ++ (public_fallback ∷ [])

abbrev pub names : List String → String → String
names [] sep = ""
names (n ∷ []) sep = n
names (n ∷ m ∷ ns) sep = n <> sep <> names (m ∷ ns) sep

unfoldable pub ends_with_newline : String → Bool
ends_with_newline String.[] = false
ends_with_newline (String.◌∷◌ c s) =
    let rest = ends_with_newline s in if s == "" then eqb (code c) 10 else rest

abbrev pub with_newline : String → String
with_newline text = if not (text == "") && not (ends_with_newline text) then text <> "\n" else text

abbrev pub lines_for : List String → List String
lines_for [] = []
lines_for (ns ∷ rest) = ("nameserver " <> ns) ∷ lines_for rest

module _ (t : Texts) where
  abbrev pub is_nameserver : String → Bool
  is_nameserver line = starts_with (t.lower (t.strip line)) "nameserver"

  unfoldable pub nameservers_in : List String → List String
  unfolding starts_with
  nameservers_in [] = []
  nameservers_in (raw ∷ lines) =
      let rest = nameservers_in lines in
      if is_nameserver raw then second_of (t.split (t.strip raw)) ++ rest else rest

  unfoldable pub parse_nameservers : String → List String
  unfolding nameservers_in
  parse_nameservers text = nameservers_in (t.splitlines text)

  unfoldable pub kept : List String → List String
  unfolding starts_with
  kept [] = []
  kept (line ∷ lines) = let rest = kept lines in if is_nameserver line then rest else line ∷ rest

  unfoldable pub inject_resolv_text : String → List String → String
  unfolding kept ends_with_newline
  inject_resolv_text existing nameservers =
      with_newline (names (kept (t.splitlines existing) ++ lines_for nameservers) "\n")

-- What reading resolv.conf gives counts as no text where it raises OSError.
abbrev pub text_or_empty : Outcome String → String
text_or_empty (ok s) = s
text_or_empty (raised e) = ""

module _ (ip_address : String → Option Address) where
  abbrev pub same_network : Address → Option Address → Bool
  same_network a none = false
  same_network a (some g) = a.is_version_4 && g.is_version_4 && a.network == g.network

  abbrev pub is_near : Address → Option String → Bool
  is_near a none = false
  is_near a (some g) = not (g == "") && same_network a (ip_address g)

  abbrev pub usable_address : Option Address → String → Option String → Bool
  usable_address none ns gateway = false
  usable_address (some a) ns gateway =
      if a.is_loopback || a.is_link_local || a.is_unspecified || a.is_multicast
      then false
      else not a.is_private || is_gateway ns gateway || is_near a gateway

  unfoldable pub nameserver_usable : String → Option String → Bool
  nameserver_usable ns gateway = usable_address (ip_address ns) ns gateway

  unfoldable pub libc_dns_usable : List String → Option String → Bool
  unfolding nameserver_usable
  libc_dns_usable [] gateway = false
  libc_dns_usable (ns ∷ rest) gateway = nameserver_usable ns gateway || libc_dns_usable rest gateway

  -- The reason that is returned, and the text that is written where one is.
  module _ (t : Texts) (resolv_path : String) (write : String → Outcome (Unit {0})) where
    abbrev pub report_write :
        Outcome (Unit {0}) → List String → String → Outcome String × Option String
    report_write (ok tt) planned text =
        (ok ("injected nameserver " <> names planned " "), some text)
    report_write (raised (Raised.os_error m)) planned text =
        (ok ("cannot write " <> resolv_path <> ": " <> m), none)
    report_write (raised e) planned text = (raised e, none)

    abbrev pub inject : String → List String → Outcome String × Option String
    inject text planned =
        let new_text = inject_resolv_text t text planned in
        report_write (write new_text) planned new_text

    abbrev pub repair : String → Option String → Outcome String × Option String
    repair text gateway =
        if libc_dns_usable (parse_nameservers t text) gateway
        then (ok "unchanged: libc DNS usable", none)
        else inject text (planned_for gateway)

    abbrev pub on_route :
        (String → Option String) → Option Route → Outcome String → Outcome String × Option String
    on_route driver_of none read = (ok "skipped: no default route", none)
    on_route driver_of (some r) read =
        if not (iface_kind t r.iface (driver_of r.iface) == "cellular")
        then (ok "unchanged: default route is not cellular", none)
        else repair (text_or_empty read) r.gateway

    -- `ensure_libc_dns`: the kernel's table does not change meanwhile.
    unfoldable pub ensure_libc_dns :
        Option String → (String → Option String) → Outcome String → Outcome String × Option String
    unfolding libc_dns_usable parse_nameservers planned_for inject_resolv_text
    ensure_libc_dns proc_text driver_of read = on_route driver_of (lowest_default t proc_text) read
