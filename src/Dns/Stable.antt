-- ===== src/Dns/Stable.antt =====
-- A second run of `ensure_libc_dns` (unoq_ota/dns.py), after one that wrote.
use unoq_ota.Prelude.{
  ℤ, ◌≡◌, refl, sym, ap, ◌∙◌, String, Bool, true, false, not, ◌||◌, Option, none, some, List, [],
  ◌∷◌, Every, Every-append, Bool-cases, inl, inr, ◌==◌, if◌then◌else◌, contains, ltb_ℤ, eq_iff,
  arith,
}
use unoq_ota.Outcome.{Outcome, ok, raised, os_error}
use unoq_ota.Net.{
  Texts, Route, lowest, lowest_of, lowest_default, given_gateway, ipv4_from_proc_hex, dotted,
  dotted_if_read, route_if_metric, row_of, rows_of, after_header, parse_default_route_rows,
  iface_kind,
}
use unoq_ota.Dns.{
  Address, public_fallback, planned_for, gateway_list, parse_nameservers, inject_resolv_text,
  usable_address, nameserver_usable, libc_dns_usable, text_or_empty, report_write, inject, repair,
  on_route, ensure_libc_dns,
}
use unoq_ota.Dns.Repair.{IsLawful, SplitsBack, parse_nameservers-inject_resolv_text}

abbrev pub is_public : Address → Bool
is_public a =
    not (a.is_loopback || a.is_link_local || a.is_unspecified || a.is_multicast || a.is_private)

abbrev IsNamed : (String → Bool) → Option String → Type 0
IsNamed is_name none = Unit
IsNamed is_name (some g) = is_name g ≡ true

module _ (t : Texts) (is_name : String → Bool) (lawful : IsLawful t is_name) where
  abbrev HasName : Route → Type 0
  HasName r = IsNamed is_name r.gateway

  given_gateway-IsNamed : (n : ℤ) → IsNamed is_name (given_gateway (some (dotted t n)))
  given_gateway-IsNamed n = elim (Bool-cases (dotted t n == "0.0.0.0")) [
    | inl e ↦ rw e tt
    | inr e ↦ rw e (lawful.addresses n)
  ]

  dotted_if_read-IsNamed : (o : Option ℤ) → IsNamed is_name (given_gateway (dotted_if_read t o))
  dotted_if_read-IsNamed none = tt
  dotted_if_read-IsNamed (some n) = given_gateway-IsNamed n

  route_if_metric-HasName :
      (iface hex : String) (o : Option ℤ) → Every HasName (route_if_metric t iface o hex)
  unfolding ipv4_from_proc_hex
  route_if_metric-HasName iface hex none = tt
  route_if_metric-HasName iface hex (some m) = (dotted_if_read-IsNamed (t.int_of_hex hex), tt)

  row_of-HasName : (columns : List String) → Every HasName (row_of t columns)
  row_of-HasName (iface ∷ dest ∷ hex ∷ flags ∷ ref ∷ use_count ∷ metric ∷ mask ∷ rest) =
      elim (Bool-cases (dest == "00000000")) [
        | inl e ↦ rw e (route_if_metric-HasName iface hex (t.int_of metric))
        | inr e ↦ rw e tt
      ]
  row_of-HasName l = tt

  rows_of-HasName : (lines : List String) → Every HasName (rows_of t lines)
  unfolding rows_of
  rows_of-HasName [] = tt
  rows_of-HasName (l ∷ lines) =
      Every-append HasName (row_of t (t.split l)) (rows_of t lines) (row_of-HasName (t.split l))
        (rows_of-HasName lines)

  after_header-HasName : (lines : List String) → Every HasName (after_header t lines)
  after_header-HasName [] = tt
  after_header-HasName (l ∷ lines) = rows_of-HasName lines

  lowest-HasName :
      (r : Route) (rs : List Route) → HasName r → Every HasName rs → HasName (lowest r rs)
  unfolding lowest
  lowest-HasName r [] h hs = h
  lowest-HasName r (s ∷ rs) h (k, hs) = elim (Bool-cases (ltb_ℤ s.metric r.metric)) [
    | inl e ↦ rw (lowest, e) (lowest-HasName s rs k hs)
    | inr e ↦ rw (lowest, e) (lowest-HasName r rs h hs)
  ]

  lowest_of-HasName :
      (rs : List Route) (r : Route) → Every HasName rs → lowest_of rs ≡ some r → HasName r
  lowest_of-HasName [] r hs e = absurd (cc e)
  lowest_of-HasName (s ∷ rs) r (h, hs) e =
      let same : lowest s rs ≡ r = cc in rw (← same) (lowest-HasName s rs h hs)

  lowest_default-HasName :
      (proc_text : Option String) (r : Route) → lowest_default t proc_text ≡ some r → HasName r
  unfolding lowest_default parse_default_route_rows
  lowest_default-HasName none r e = absurd (cc e)
  lowest_default-HasName (some text) r e =
      lowest_of-HasName (after_header t (t.splitlines text)) r
        (after_header-HasName (t.splitlines text)) e

  gateway_list-Every :
      (g : Option String) → IsNamed is_name g → Every (λ s. is_name s ≡ true) (gateway_list g)
  gateway_list-Every none h = tt
  gateway_list-Every (some g) h = elim (Bool-cases (g == "")) [
    | inl e ↦ rw e tt
    | inr e ↦ rw e (h, tt)
  ]

  -- The plan is a list of names, and the fallback is among them.
  abbrev IsPlan : List String → Type 0
  IsPlan plan = Every (λ s. is_name s ≡ true) plan × (contains plan public_fallback ≡ true)

  fallback-IsPlan : IsPlan (public_fallback ∷ [])
  fallback-IsPlan = ((lawful.fallback, tt), refl)

  planned_for-IsPlan : (g : Option String) → IsNamed is_name g → IsPlan (planned_for g)
  unfolding planned_for
  planned_for-IsPlan none h = fallback-IsPlan
  planned_for-IsPlan (some g) h = elim (Bool-cases (g == "")) [
    | inl e ↦ rw e fallback-IsPlan
    | inr e ↦ elim (Bool-cases (g == public_fallback)) [
      | inl f ↦ rw (e, f) ((h, tt), rw f refl)
      | inr f ↦ rw (e, f) ((h, (lawful.fallback, tt)), rw f refl)
    ]
  ]

or_true : (b : Bool) → (b || true) ≡ true
or_true true = refl
or_true false = refl

usable_address-public :
    (ip_address : String → Option Address) (a : Address) (n : String) (g : Option String)
    → is_public a ≡ true
    → usable_address ip_address (some a) n g ≡ true
usable_address-public ip_address a n g h = ground (arith, h)

module _ (ip_address : String → Option Address) where
  libc_dns_usable-contains :
      (l : List String) (g : Option String) (a : Address)
      → ip_address public_fallback ≡ some a
      → is_public a ≡ true
      → contains l public_fallback ≡ true
      → libc_dns_usable ip_address l g ≡ true
  unfolding libc_dns_usable nameserver_usable
  libc_dns_usable-contains [] g a known public h = absurd (cc h)
  libc_dns_usable-contains (n ∷ l) g a known public h = elim (Bool-cases (n == public_fallback)) [
    | inl e ↦
        let same = (eq_iff n public_fallback).0 e in
        let usable : usable_address ip_address (ip_address n) n g ≡ true =
          rw (same, known) (usable_address-public ip_address a public_fallback g public) in
        rw usable refl
    | inr e ↦
        let in_rest : contains l public_fallback ≡ true =
          ap (λ b. b || contains l public_fallback) (sym e) ∙ h in
        rw (libc_dns_usable-contains l g a known public in_rest)
          (or_true (nameserver_usable ip_address n g))
  ]

  module _ (t : Texts) (resolv_path : String) (write : String → Outcome (Unit {0})) where
    report_write-text :
        (o : Outcome (Unit {0})) (planned : List String) (new text reason : String)
        → report_write ip_address t resolv_path write o planned new ≡ (ok reason, some text)
        → text ≡ new
    report_write-text (ok tt) planned new text reason h =
        let e : some new ≡ some text = ap (λ p. p.1) h in cc e
    report_write-text (raised (os_error m)) planned new text reason h =
        absurd (cc (ap (λ p. p.1) h))
    report_write-text (raised e) planned new text reason h = absurd (cc (ap (λ p. p.1) h))

    unless-text :
        (usable : Bool) (s text reason : String) (planned : List String)
        → (if usable
            then (ok "unchanged: libc DNS usable", none)
            else inject ip_address t resolv_path write s planned)
          ≡ (ok reason, some text)
        → text ≡ inject_resolv_text t s planned
    unless-text true s text reason planned h = absurd (cc (ap (λ p. p.1) h))
    unless-text false s text reason planned h =
        let new = inject_resolv_text t s planned in
        report_write-text (write new) planned new text reason h

    module _ (is_name : String → Bool) (lawful : IsLawful t is_name) (a : Address)
        (known : ip_address public_fallback ≡ some a) (public : is_public a ≡ true) where
      repair-stable :
          (s text reason : String) (g : Option String)
          → IsNamed is_name g
          → SplitsBack t s (planned_for g)
          → repair ip_address t resolv_path write s g ≡ (ok reason, some text)
          → repair ip_address t resolv_path write text g ≡ (ok "unchanged: libc DNS usable", none)
      repair-stable s text reason g named splits h =
          let wrote =
            unless-text (libc_dns_usable ip_address (parse_nameservers t s) g) s text reason
              (planned_for g) h in
          let (all, has) = planned_for-IsPlan t is_name lawful g named in
          let reads : parse_nameservers t text ≡ planned_for g =
            ap (parse_nameservers t) wrote
            ∙ parse_nameservers-inject_resolv_text t is_name lawful s (planned_for g) all splits in
          rw (reads, libc_dns_usable-contains (planned_for g) g a known public has) refl

      cellular-stable :
          (other : Bool) (s text reason : String) (g : Option String)
          → IsNamed is_name g
          → SplitsBack t s (planned_for g)
          → (if other
              then (ok "unchanged: default route is not cellular", none)
              else repair ip_address t resolv_path write s g)
            ≡ (ok reason, some text)
          → (if other
              then (ok "unchanged: default route is not cellular", none)
              else repair ip_address t resolv_path write text g)
            ≡ (ok "unchanged: libc DNS usable", none)
      cellular-stable true s text reason g named splits h = absurd (cc (ap (λ p. p.1) h))
      cellular-stable false s text reason g named splits h =
          repair-stable s text reason g named splits h

      on_route-stable :
          (driver_of : String → Option String) (o : Option Route) (read : Outcome String)
          (text reason : String)
          → ((r : Route) → o ≡ some r → IsNamed is_name r.gateway)
          → ((r : Route) → o ≡ some r → SplitsBack t (text_or_empty read) (planned_for r.gateway))
          → on_route ip_address t resolv_path write driver_of o read ≡ (ok reason, some text)
          → on_route ip_address t resolv_path write driver_of o (ok text)
            ≡ (ok "unchanged: libc DNS usable", none)
      on_route-stable driver_of none read text reason named splits h = absurd (cc (ap (λ p. p.1) h))
      on_route-stable driver_of (some r) read text reason named splits h =
          cellular-stable (not (iface_kind t r.iface (driver_of r.iface) == "cellular"))
            (text_or_empty read) text reason r.gateway (named r refl) (splits r refl) h

-- Where the rewrite of resolv.conf has been written, another run with the same default route, which reads
-- what was written, finds a usable nameserver and writes nothing. The fallback is a public address; the
-- hypotheses on texts are those of `IsLawful`, and that the lines of the new file are those that were joined.
pub ensure_libc_dns-stable :
    (ip_address : String → Option Address) (t : Texts) (resolv_path : String)
    (write : String → Outcome (Unit {0})) (is_name : String → Bool)
    → IsLawful t is_name
    → (a : Address) → ip_address public_fallback ≡ some a
    → is_public a ≡ true
    → (proc_text : Option String) (driver_of : String → Option String) (read : Outcome String)
      (reason text : String)
    → ((r : Route)
        → lowest_default t proc_text ≡ some r
        → SplitsBack t (text_or_empty read) (planned_for r.gateway))
    → ensure_libc_dns ip_address t resolv_path write proc_text driver_of read
      ≡ (ok reason, some text)
    → ensure_libc_dns ip_address t resolv_path write proc_text driver_of (ok text)
      ≡ (ok "unchanged: libc DNS usable", none)
unfolding ensure_libc_dns
ensure_libc_dns-stable ip_address t resolv_path write is_name lawful a known public proc_text
      driver_of read reason text splits h =
    on_route-stable ip_address t resolv_path write is_name lawful a known public driver_of
      (lowest_default t proc_text) read text reason
      (lowest_default-HasName t is_name lawful proc_text) splits h
