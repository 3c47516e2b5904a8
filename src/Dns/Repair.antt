-- ===== src/Dns/Repair.antt =====
-- What `ensure_libc_dns` (unoq_ota/dns.py) writes, as `parse_nameservers` reads it.
use unoq_ota.Prelude.{
  ℤ, ◌≡◌, refl, sym, ap, ◌∙◌, String, ◌<>◌, Bool, true, List, [], ◌∷◌, ◌++◌, Every, Bool-cases, inl,
  inr, append_assoc,
}
use unoq_ota.Net.{Texts, dotted}
use unoq_ota.Dns.{
  public_fallback, names, with_newline, lines_for, is_nameserver, nameservers_in, parse_nameservers,
  kept, inject_resolv_text, second_of,
}

-- Python's texts, as far as resolv.conf needs them: `is_name` stands for a word, which dotted addresses are.
pub record IsLawful (t : Texts) (is_name : String → Bool) : Type 0 where
  pub words :
      (n : String)
      → is_name n ≡ true
      → t.split (t.strip ("nameserver " <> n)) ≡ "nameserver" ∷ n ∷ []
  pub begins : (n : String) → is_name n ≡ true → is_nameserver t ("nameserver " <> n) ≡ true
  pub addresses : (n : ℤ) → is_name (dotted t n) ≡ true
  pub fallback : is_name public_fallback ≡ true

-- The lines that are kept and those that are added, joined by newlines and split again.
abbrev pub SplitsBack : Texts → String → List String → Type 0
SplitsBack t existing ns =
    let lines = kept t (t.splitlines existing) ++ lines_for ns in
    t.splitlines (with_newline (names lines "\n")) ≡ lines

module _ (t : Texts) where
  nameservers_in-append :
      (a b : List String) → nameservers_in t (a ++ b) ≡ nameservers_in t a ++ nameservers_in t b
  unfolding nameservers_in
  nameservers_in-append [] b = refl
  nameservers_in-append (l ∷ a) b = elim (Bool-cases (is_nameserver t l)) [
    | inl e ↦
        let found = second_of (t.split (t.strip l)) in
        rw e (
          ap (λ k. found ++ k) (nameservers_in-append a b)
          ∙ sym (append_assoc found (nameservers_in t a) (nameservers_in t b)))
    | inr e ↦ rw e (nameservers_in-append a b)
  ]

  nameservers_in-kept : (ls : List String) → nameservers_in t (kept t ls) ≡ []
  unfolding nameservers_in kept
  nameservers_in-kept [] = refl
  nameservers_in-kept (l ∷ ls) = elim (Bool-cases (is_nameserver t l)) [
    | inl e ↦ rw e (nameservers_in-kept ls)
    | inr e ↦ rw (e, e) (nameservers_in-kept ls)
  ]

  module _ (is_name : String → Bool) (lawful : IsLawful t is_name) where
    nameservers_in-lines_for :
        (ns : List String) → Every (λ s. is_name s ≡ true) ns → nameservers_in t (lines_for ns) ≡ ns
    unfolding nameservers_in
    nameservers_in-lines_for [] h = refl
    nameservers_in-lines_for (n ∷ ns) (h, hs) =
        rw (lawful.begins n h, lawful.words n h) (ap (λ l. n ∷ l) (nameservers_in-lines_for ns hs))

-- What is injected into a file is what is read from it afterwards, and all other nameservers are gone. The
-- names are words, and the lines of the new file are those that were joined.
pub parse_nameservers-inject_resolv_text :
    (t : Texts) (is_name : String → Bool)
    → IsLawful t is_name
    → (existing : String) (ns : List String) → Every (λ s. is_name s ≡ true) ns
    → SplitsBack t existing ns
    → parse_nameservers t (inject_resolv_text t existing ns) ≡ ns
unfolding parse_nameservers inject_resolv_text
parse_nameservers-inject_resolv_text t is_name lawful existing ns h splits =
    let old = kept t (t.splitlines existing) in
    ap (nameservers_in t) splits
    ∙ nameservers_in-append t old (lines_for ns)
    ∙ ap (λ l. l ++ nameservers_in t (lines_for ns)) (nameservers_in-kept t (t.splitlines existing))
    ∙ nameservers_in-lines_for t is_name lawful ns h
