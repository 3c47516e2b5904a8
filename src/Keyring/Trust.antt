-- ===== src/Keyring/Trust.antt =====
-- Which keys `load_keyring` (unoq_ota/keyring.py) trusts.
use mathlib.Core.Path.{subst}
use unoq_ota.Prelude.{
  String, ◌≡◌, ◌≢◌, ◌↔◌, ◌⊎◌, inl, inr, refl, sym, ◌∙◌, Option, none, some, List, [], ◌∷◌, Dict,
  lookup, lookup-insert, Every, Bool-cases, ◌==◌, eq_iff, arith,
}
use unoq_ota.Outcome.{Outcome, ok, raised}
use unoq_ota.Keyring.{KeyFile, Codec, key_id_of, key_of, with_key, load_keys, load_keyring}

-- No two of the files have one key id.
abbrev pub IsDistinct : List KeyFile → Type 0
IsDistinct [] = Unit
IsDistinct (f ∷ files) = Every (λ g. key_id_of g ≢ key_id_of f) files × IsDistinct files

-- The files that the directory holds, none where there is no directory.
abbrev files_of : Option (List KeyFile) → List KeyFile
files_of none = []
files_of (some files) = files

module _ (co : Codec) (id : String) where
  -- One of the files has this key id, and holds this key.
  abbrev pub IsProvisioned : List KeyFile → co.Key → Type 0
  IsProvisioned [] key = ⊥
  IsProvisioned (f ∷ files) key =
      ((key_id_of f ≡ id) × (key_of co f ≡ ok key)) ⊎ IsProvisioned files key

  lookup-with_key :
      (name : String) (r : Outcome co.Key) (keys : Dict co.Key)
      → name ≢ id
      → lookup id (with_key co name r keys) ≡ lookup id keys
  lookup-with_key name (ok key) keys ne =
      ground (arith, ne, eq_iff name id, lookup-insert name id key keys)
  lookup-with_key name (raised e) keys ne = refl

  -- Files of other key ids leave what is known.
  lookup-load_keys :
      (files : List KeyFile) (keys : Dict co.Key)
      → Every (λ g. key_id_of g ≢ id) files
      → lookup id (load_keys co files keys) ≡ lookup id keys
  unfolding load_keys
  lookup-load_keys [] keys h = refl
  lookup-load_keys (f ∷ files) keys (ne, h) =
      lookup-load_keys files (with_key co (key_id_of f) (key_of co f) keys) h
      ∙ lookup-with_key (key_id_of f) (key_of co f) keys ne

  other_files :
      (files : List KeyFile) (key : co.Key)
      → Every (λ g. key_id_of g ≢ id) files
      → IsProvisioned files key
      → ⊥
  other_files [] key h p = p
  other_files (f ∷ files) key (ne, h) (inl (e, r)) = ne e
  other_files (f ∷ files) key (ne, h) (inr p) = other_files files key h p

  -- What the file of the key id itself leaves in a keyring without it.
  with_key-known :
      (name : String) (r : Outcome co.Key) (keys : Dict co.Key) (key : co.Key)
      → name ≡ id
      → lookup id keys ≡ none
      → (lookup id (with_key co name r keys) ≡ some key) ↔ (r ≡ ok key)
  with_key-known name (ok k) keys key e fresh =
      let found = lookup-insert name id k keys in
      (
        λ h. ground (arith, eq_iff name id, found, h, e),
        λ h. ground (arith, eq_iff name id, found, h, e),
      )
  with_key-known name (raised x) keys key e fresh =
      (λ h. absurd (cc (h, fresh)), λ h. absurd (cc h))

  load_keys-trusts :
      (files : List KeyFile) (keys : Dict co.Key) (key : co.Key)
      → IsDistinct files
      → lookup id keys ≡ none
      → (lookup id (load_keys co files keys) ≡ some key) ↔ IsProvisioned files key
  unfolding load_keys
  load_keys-trusts [] keys key d fresh = (λ h. absurd (cc (h, fresh)), λ h. absurd h)
  load_keys-trusts (f ∷ files) keys key (others, d) fresh = elim (Bool-cases (key_id_of f == id)) [
    | inl hit ↦
        let e : key_id_of f ≡ id = (eq_iff (key_id_of f) id).0 hit in
        let rest : Every (λ g. key_id_of g ≢ id) files =
          subst (λ i. Every (λ g. key_id_of g ≢ i) files) e others in
        let kept = lookup-load_keys files (with_key co (key_id_of f) (key_of co f) keys) rest in
        let known = with_key-known (key_id_of f) (key_of co f) keys key e fresh in
        (
          λ h. inl (e, known.0 (sym kept ∙ h)),
          λ p. elim p [
            | inl q ↦ kept ∙ known.1 q.1
            | inr q ↦ absurd (other_files files key rest q)
          ],
        )
    | inr miss ↦
        let ne : key_id_of f ≢ id = λ e. absurd (cc (miss, (eq_iff (key_id_of f) id).1 e)) in
        let keys' = with_key co (key_id_of f) (key_of co f) keys in
        let ih =
          load_keys-trusts files keys' key d
            (lookup-with_key (key_id_of f) (key_of co f) keys ne ∙ fresh) in
        (λ h. inr (ih.0 h), λ p. elim p [ inl q ↦ absurd (ne q.0) | inr q ↦ ih.1 q ])
  ]

-- Let the files of the directory have distinct key ids, as files of distinct names have. The keyring gives
-- a key under an id exactly if a file of that id can be read and holds that key: a file that cannot be
-- used takes no other down with it, and where there is no directory there is no key.
pub load_keyring-trusts :
    (co : Codec) (id : String) (directory : Option (List KeyFile)) (key : co.Key)
    → IsDistinct (files_of directory)
    → (lookup id (load_keyring co directory) ≡ some key)
      ↔ IsProvisioned co id (files_of directory) key
unfolding load_keyring
load_keyring-trusts co id none key d = (λ h. absurd (cc h), λ h. absurd h)
load_keyring-trusts co id (some files) key d = load_keys-trusts co id files [] key d refl
