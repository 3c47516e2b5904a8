-- ===== src/Tests/Network.antt =====
-- Sources, downloads, routes, the cellular gate and the DNS repair at concrete inputs.
use mathlib.Core.Path.{subst}
use unoq_ota.Prelude.{
  ℕ, length, ◌≤◌, pos, ◌≡◌, ◌↔◌, ◌⊎◌, inl, inr, refl, sym, ap, ◌∙◌, String, Bool, true, false, ◌||◌,
  Option, none, some, List, [], ◌∷◌, ◌==◌, if◌then◌else◌, contains, eq_iff, Bool-cases,
}
use unoq_ota.Outcome.{Outcome, ok, raised, other_error, os_error}
use unoq_ota.Python.{str, int, obj, Fields, end, field}
use unoq_ota.Artifact.{Bytes}
use unoq_ota.Interfaces.{Update}
use unoq_ota.State.{State, load, text, payload_of}
use unoq_ota.Sources.{Reader, Stream, finished, chunk, local_check, http_check, download}
use unoq_ota.Sources.Offers.{IsManifest, with_store, http_check-offers, checks-unpoisoned}
use unoq_ota.Sources.Downloads.{arrives, download-saves}
use unoq_ota.Net.{starts_with, Texts, Route, lowest_default, iface_kind, ran, may_fetch}
use unoq_ota.Net.Routes.{
  IsFirstLowest, MayFetch, is_allowed, lowest_default-IsFirstLowest, may_fetch-allows,
}
use unoq_ota.Dns.{
  ends_with_newline, Address, planned_for, kept, inject_resolv_text, parse_nameservers,
  ensure_libc_dns,
}
use unoq_ota.Dns.Repair.{IsLawful, SplitsBack, parse_nameservers-inject_resolv_text}
use unoq_ota.Dns.Stable.{ensure_libc_dns-stable}
use unoq_ota.Cli.Commands.{Remote, fetch}
use unoq_ota.Cli.Commands.Fetching.{IsKept, fetch-bounded}
use unoq_ota.Tests.Device.{python, committed_state}

abbrev new_manifest : Fields
new_manifest = field "version" (str "3.0") (field "sequence" (int (pos 3)) end)

abbrev reader : Reader
reader = record {
  py = python;
  loads = λ b. ok (obj new_manifest);
  str_of = λ v. "";
  poisoned = λ v. ok (v == "2.0");
}

abbrev offered : Update
offered = record { version = "3.0"; sequence = pos 3; manifest = new_manifest }

http_check-offers_example : (http_check reader (ok tt) (ok []) ≡ some offered) ↔ (
    (◌≡◌ {A = Outcome (Unit {0})} (ok tt) (ok tt))
    × ((raw : Bytes) × (◌≡◌ {A = Outcome Bytes} (ok []) (ok raw)) × IsManifest reader raw offered)
    × (reader.poisoned "3.0" ≡ ok false))
http_check-offers_example = http_check-offers reader (ok tt) (ok []) offered

local_offers :
    local_check (with_store reader python (text (payload_of committed_state))) (ok true) (ok [])
    ≡ some offered
unfolding local_check load payload_of
local_offers = refl

checks-unpoisoned_example :
    (s : State) × (load python (text (payload_of committed_state)) ≡ ok s)
    × (contains s.poisoned "3.0" ≡ false)
checks-unpoisoned_example =
    checks-unpoisoned {C = Bool} {B = Bool} reader python (text (payload_of committed_state))
      offered (ok true) (ok tt) (ok []) (ok true) (λ c. ok c) (λ b. ok []) (inl local_offers)

abbrev body : Stream
body = chunk (1 ∷ 2 ∷ []) (chunk (3 ∷ []) finished)

too_large_removed :
    download (λ h c. none) 2 (ok tt) (ok body) (ok tt) (λ e. ok tt) none
    ≡ (raised (other_error "artifact exceeded max_bytes"), none)
unfolding download
too_large_removed = refl

download-saves_example :
    (download (λ h c. none) 3 (ok tt) (ok body) (ok tt) (λ e. ok tt) none
      ≡ (ok tt, some (1 ∷ 2 ∷ 3 ∷ [])))
    ↔ ((s : Stream) × (◌≡◌ {A = Outcome Stream} (ok body) (ok s))
        × (arrives s ≡ some (1 ∷ 2 ∷ 3 ∷ []))
        × (length {A = ℕ} (1 ∷ 2 ∷ 3 ∷ []) ≤ 3))
download-saves_example =
    download-saves (λ h c. none) 3 (ok body) (λ e. ok tt) none (1 ∷ 2 ∷ 3 ∷ []) (λ h c. refl)

abbrev remote : Remote
remote = record {
  scheme_of = λ url. ok "https";
  is_absolute = λ p. true;
  join = λ d p. p;
  read_file = λ p. raised (os_error "no such file");
  write_file = λ b. (ok tt, some b);
  made = ok tt;
  response = λ url. ok body;
  s3_object = λ url. ok ("bucket", "key");
  s3_response = λ o. ok body;
  opened = ok tt;
  removal = λ e. ok tt;
  write = λ h c. none;
}

fetch-bounded_example : IsKept 2 none (fetch remote 2 "https://x/2.0" none none).1
fetch-bounded_example = fetch-bounded remote 2 "https" "https://x/2.0" none none refl refl refl

-- A table with one default route, on a modem, and a resolv.conf with a nameserver of the LAN.
abbrev gateway : String
gateway = "10.10.10.10"

abbrev fixed_lines : List String
fixed_lines = "search lan" ∷ "nameserver 10.10.10.10" ∷ "nameserver 8.8.8.8" ∷ []

abbrev fixed : String
fixed = "search lan\nnameserver 10.10.10.10\nnameserver 8.8.8.8\n"

abbrev split_lines : String → List String
split_lines s =
    if s == fixed
    then fixed_lines
    else if s == "table"
    then "header" ∷ "row" ∷ []
    else "nameserver 192.168.1.1" ∷ "search lan" ∷ []

abbrev split_words : String → List String
split_words s =
    if s == "row"
    then "wwan0" ∷ "00000000" ∷ "0101" ∷ "3" ∷ "0" ∷ "0" ∷ "700" ∷ "0" ∷ []
    else if s == "nameserver 192.168.1.1"
    then "nameserver" ∷ "192.168.1.1" ∷ []
    else if s == "nameserver 10.10.10.10"
    then "nameserver" ∷ gateway ∷ []
    else "nameserver" ∷ "8.8.8.8" ∷ []

abbrev texts : Texts
texts = record {
  splitlines = split_lines;
  split = split_words;
  strip = λ s. s;
  lower = λ s. s;
  is_within = λ p s. true;
  after_colon = λ s. s;
  int_of = λ s. some (pos 70);
  int_of_hex = λ s. some (pos 5);
  str_of = λ n. "10";
}

abbrev modem : Route
modem = record { iface = "wwan0"; metric = pos 70; gateway = some gateway }

modem_route : lowest_default texts (some "table") ≡ some modem
unfolding lowest_default
modem_route = refl

lowest_default-IsFirstLowest_example : IsFirstLowest texts "table" modem
lowest_default-IsFirstLowest_example = lowest_default-IsFirstLowest texts "table" modem modem_route

weak_signal :
    is_allowed (may_fetch texts (pos 90) "5" (some "table") (λ i. none) (ran (pos 0) "70" ""))
    ≡ false
unfolding may_fetch
weak_signal = refl

may_fetch-allows_example :
    (is_allowed (may_fetch texts (pos 20) "5" (some "table") (λ i. none) (ran (pos 0) "70" ""))
      ≡ true)
    ↔ MayFetch texts (pos 20) (some "table") (λ i. none) (ran (pos 0) "70" "")
may_fetch-allows_example =
    may_fetch-allows texts (pos 20) "5" (some "table") (λ i. none) (ran (pos 0) "70" "")

abbrev is_name : String → Bool
is_name s = s == gateway || s == "8.8.8.8"

name-cases : (n : String) → is_name n ≡ true → (n ≡ gateway) ⊎ (n ≡ "8.8.8.8")
name-cases n h = elim (Bool-cases (n == gateway)) [
  | inl e ↦ inl ((eq_iff n gateway).0 e)
  | inr e ↦ inr ((eq_iff n "8.8.8.8").0 (ap (λ b. b || n == "8.8.8.8") (sym e) ∙ h))
]

texts-IsLawful : IsLawful texts is_name
unfolding starts_with
texts-IsLawful = record {
  words = λ n h. elim (name-cases n h) [ inl e ↦ rw e refl | inr e ↦ rw e refl ];
  begins = λ n h. elim (name-cases n h) [ inl e ↦ rw e refl | inr e ↦ rw e refl ];
  addresses = λ n. refl;
  fallback = refl;
}

lines_split_back : SplitsBack texts "old" (gateway ∷ "8.8.8.8" ∷ [])
unfolding kept ends_with_newline
lines_split_back = refl

parse_nameservers-inject_resolv_text_example :
    parse_nameservers texts (inject_resolv_text texts "old" (gateway ∷ "8.8.8.8" ∷ []))
    ≡ gateway ∷ "8.8.8.8" ∷ []
parse_nameservers-inject_resolv_text_example =
    parse_nameservers-inject_resolv_text texts is_name texts-IsLawful "old"
      (gateway ∷ "8.8.8.8" ∷ []) (refl, (refl, tt)) lines_split_back

abbrev address : Bool → Address
address private = record {
  is_loopback = false;
  is_link_local = false;
  is_unspecified = false;
  is_multicast = false;
  is_private = private;
  is_version_4 = true;
  network = "8.8.8";
}

abbrev addresses : String → Option Address
addresses s =
    if s == "192.168.1.1"
    then some (record (address true) { network = "192.168.1" })
    else some (address (s == gateway))

repaired :
    ensure_libc_dns addresses texts "/etc/resolv.conf"
      (λ s. ok tt)
      (some "table")
      (λ i. none)
      (ok "old")
    ≡ (ok "injected nameserver 10.10.10.10 8.8.8.8", some fixed)
unfolding ensure_libc_dns lowest_default iface_kind
repaired = refl

route_splits :
    (r : Route)
    → lowest_default texts (some "table") ≡ some r
    → SplitsBack texts "old" (planned_for r.gateway)
unfolding planned_for
route_splits r h =
    let found : some modem ≡ some r = sym modem_route ∙ h in
    let same : modem ≡ r = cc found in
    subst (λ (x : Route). SplitsBack texts "old" (planned_for x.gateway)) same lines_split_back

ensure_libc_dns-stable_example :
    ensure_libc_dns addresses texts "/etc/resolv.conf"
      (λ s. ok tt)
      (some "table")
      (λ i. none)
      (ok fixed)
    ≡ (ok "unchanged: libc DNS usable", none)
ensure_libc_dns-stable_example =
    ensure_libc_dns-stable addresses texts "/etc/resolv.conf" (λ s. ok tt) is_name texts-IsLawful
      (address false) refl refl (some "table") (λ i. none) (ok "old")
      "injected nameserver 10.10.10.10 8.8.8.8" fixed route_splits repaired
