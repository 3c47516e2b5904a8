-- ===== src/Net/Signal.antt =====
-- What the probe's output says of the signal, and which devices are cellular (unoq_ota/net.py,
-- unoq_ota/gates/cellular_signal.py).
use unoq_ota.Prelude.{
  ℤ, pos, leb_ℤ, ◌≡◌, ◌↔◌, ◌⊎◌, inl, inr, refl, ap, String, Bool, true, false, ◌&&◌, Option, none,
  some, List, [], ◌∷◌, ◌++◌, Every, Bool-cases, ◌==◌, contains, if◌then◌else◌,
}
use unoq_ota.Net.{
  Texts, starts_with_any, or_empty, iface_kind, percent, quality_in, parse_signal_quality,
}

-- The key of the line that counts.
abbrev pub HasKey : Texts → String → Bool → Type 0
HasKey t raw b = t.is_within "modem.generic.signal-quality.value" (t.strip raw) ≡ b

-- The first of the lines with the key has, after its colon, the number, which is between 0 and 100.
pub record IsQuality (t : Texts) (lines : List String) (q : ℤ) : Type 0 where
  pub before : List String
  pub line : String
  pub after : List String
  pub splits : lines ≡ before ++ (line ∷ after)
  pub others : Every (λ raw. HasKey t raw false) before
  pub first : HasKey t line true
  pub number : t.int_of (t.strip (t.after_colon (t.strip line))) ≡ some q
  pub not_negative : leb_ℤ (pos 0) q ≡ true
  pub at_most_100 : leb_ℤ q (pos 100) ≡ true

module _ (t : Texts) where
  both_true : (a b : Bool) → a && b ≡ true → (a ≡ true) × (b ≡ true)
  both_true true b h = (refl, h)
  both_true false b h = absurd (cc h)

  if_within : (b : Bool) (n q : ℤ) → (if b then some n else none) ≡ some q → (b ≡ true) × (n ≡ q)
  if_within true n q h = (refl, cc)
  if_within false n q h = absurd (cc h)

  percent-some :
      (o : Option ℤ) (q : ℤ)
      → percent t o ≡ some q
      → (o ≡ some q) × (leb_ℤ (pos 0) q ≡ true) × (leb_ℤ q (pos 100) ≡ true)
  percent-some none q h = absurd (cc h)
  percent-some (some n) q h =
      let (within, same) = if_within (leb_ℤ (pos 0) n && leb_ℤ n (pos 100)) n q h in
      let (low, high) = both_true (leb_ℤ (pos 0) n) (leb_ℤ n (pos 100)) within in
      (ap some same, rw (← same) low, rw (← same) high)

  quality_in-IsQuality :
      (lines : List String) (q : ℤ) → quality_in t lines ≡ some q → IsQuality t lines q
  unfolding quality_in
  quality_in-IsQuality [] q h = absurd (cc h)
  quality_in-IsQuality (raw ∷ lines) q h =
      let given = t.int_of (t.strip (t.after_colon (t.strip raw))) in
      elim (Bool-cases (t.is_within "modem.generic.signal-quality.value" (t.strip raw))) [
        | inl key ↦
            let read : percent t given ≡ some q = cc in
            let (number, low, high) = percent-some given q read in
            record {
              before = [];
              line = raw;
              after = lines;
              splits = refl;
              others = tt;
              first = key;
              number = number;
              not_negative = low;
              at_most_100 = high;
            }
        | inr other ↦
            let rest : quality_in t lines ≡ some q = cc in
            let w = quality_in-IsQuality lines q rest in
            record {
              before = raw ∷ w.before;
              line = w.line;
              after = w.after;
              splits = ap (λ l. raw ∷ l) w.splits;
              others = (other, w.others);
              first = w.first;
              number = w.number;
              not_negative = w.not_negative;
              at_most_100 = w.at_most_100;
            }
      ]

  quality_in-first :
      (before : List String) (line : String) (after : List String) (q : ℤ)
      → Every (λ raw. HasKey t raw false) before
      → HasKey t line true
      → t.int_of (t.strip (t.after_colon (t.strip line))) ≡ some q
      → leb_ℤ (pos 0) q ≡ true
      → leb_ℤ q (pos 100) ≡ true
      → quality_in t (before ++ (line ∷ after)) ≡ some q
  unfolding quality_in
  quality_in-first [] line after q others first number low high = rw (first, number, low, high) refl
  quality_in-first (b ∷ before) line after q (other, others) first number low high =
      rw other (quality_in-first before line after q others first number low high)

  pub parse_signal_quality-IsQuality :
      (out : String) (q : ℤ)
      → (parse_signal_quality t out ≡ some q) ↔ IsQuality t (t.splitlines out) q
  unfolding parse_signal_quality
  parse_signal_quality-IsQuality out q = (
    quality_in-IsQuality (t.splitlines out) q,
    λ w. rw (w.splits) (
        quality_in-first w.before w.line w.after q w.others w.first w.number w.not_negative
          w.at_most_100),
  )

  -- The name has no Wi-Fi prefix, and has a cellular one or else a cellular driver.
  abbrev pub IsCellular : String → Option String → Type 0
  IsCellular iface driver =
      (starts_with_any (t.lower iface) ("wlan" ∷ "mlan" ∷ "wifi" ∷ []) ≡ false)
      × ((starts_with_any (t.lower iface) ("wwan" ∷ "rmnet" ∷ "usb0" ∷ []) ≡ true)
          ⊎ (contains ("cdc_ether" ∷ "cdc_ncm" ∷ "cdc_mbim" ∷ "qmi_wwan" ∷ "rndis_host" ∷ [])
                (t.lower (or_empty driver))
              ≡ true))

  -- The chain of tests.
  abbrev kind_by : Bool → Bool → Bool → Bool → String
  kind_by wifi cellular driver ethernet =
      if wifi
      then "wifi"
      else if cellular
      then "cellular"
      else if driver
      then "cellular"
      else if ethernet
      then "ethernet"
      else "other"

  kind_by-cellular :
      (wifi cellular driver ethernet : Bool)
      → ((kind_by wifi cellular driver ethernet == "cellular") ≡ true)
        ↔ ((wifi ≡ false) × ((cellular ≡ true) ⊎ (driver ≡ true)))
  kind_by-cellular true c d e = (λ h. absurd (cc h), λ h. absurd (cc h.0))
  kind_by-cellular false true d e = (λ h. (refl, inl refl), λ h. refl)
  kind_by-cellular false false true e = (λ h. (refl, inr refl), λ h. refl)
  kind_by-cellular false false false true =
      (λ h. absurd (cc h), λ h. elim h.1 [ inl x ↦ absurd (cc x) | inr x ↦ absurd (cc x) ])
  kind_by-cellular false false false false =
      (λ h. absurd (cc h), λ h. elim h.1 [ inl x ↦ absurd (cc x) | inr x ↦ absurd (cc x) ])

  pub iface_kind-IsCellular :
      (iface : String) (driver : Option String)
      → ((iface_kind t iface driver == "cellular") ≡ true) ↔ IsCellular iface driver
  unfolding iface_kind
  iface_kind-IsCellular iface driver =
      kind_by-cellular (starts_with_any (t.lower iface) ("wlan" ∷ "mlan" ∷ "wifi" ∷ []))
        (starts_with_any (t.lower iface) ("wwan" ∷ "rmnet" ∷ "usb0" ∷ []))
        (contains ("cdc_ether" ∷ "cdc_ncm" ∷ "cdc_mbim" ∷ "qmi_wwan" ∷ "rndis_host" ∷ [])
          (t.lower (or_empty driver)))
        (starts_with_any (t.lower iface) ("eth" ∷ "enx" ∷ "ens" ∷ "enp" ∷ "eno" ∷ []))
