-- ===== src/Sources/Downloads.antt =====
-- `download` (unoq_ota/sources/http_manifest.py): what is on disk once it is over.
use unoq_ota.Prelude.{
  ℕ, ◌+◌, ◌≤◌, ◌≡◌, ◌↔◌, ◌⊎◌, inl, inr, refl, ap, sym, ◌∙◌, Bool, true, false, Option, none, some,
  [], ◌∷◌, ◌++◌, length, take, ltb, arith, if◌then◌else◌, append_nil, append_assoc, length-append,
  Bool-cases,
}
use mathlib.Core.Option
use unoq_ota.Outcome.{Outcome, ok, raised, Raised}
use unoq_ota.Artifact.{Bytes}
use unoq_ota.Sources.{
  Stream, finished, broken, chunk, too_large, after_write, write_chunks, clean_up, keep_or_clean,
  download,
}

-- All the bytes that come in, where the stream does not break off.
abbrev pub arrives : Stream → Option Bytes
arrives finished = some []
arrives (broken e) = none
arrives (chunk c s) = Option.map (λ rest. c ++ rest) (arrives s)

abbrev pub IsAtMost : ℕ → Option Bytes → Type 0
IsAtMost n none = Unit
IsAtMost n (some b) = length b ≤ n

map-append :
    (c : Bytes) (o : Option Bytes) (rest : Bytes)
    → Option.map (λ r. c ++ r) o ≡ some rest
    → (more : Bytes) × (o ≡ some more) × (c ++ more ≡ rest)
map-append c none rest h = absurd (cc h)
map-append c (some more) rest h = (more, refl, cc)

length-take : (n : ℕ) (b : Bytes) → length (take n b) ≤ length b
length-take ℕ.zero b = omega arith
length-take (ℕ.suc n) [] = omega arith
length-take (ℕ.suc n) (x ∷ b) = omega (arith, length-take n b)

module _ (write : Bytes → Bytes → Option (Raised × ℕ)) (max_bytes : ℕ) where
  after_write-bounded :
      (o : Option (Raised × ℕ)) (held c : Bytes) (rest : Outcome (Unit {0}) × Bytes)
      → length held + length c ≤ max_bytes
      → length rest.1 ≤ max_bytes
      → length (after_write o held c rest).1 ≤ max_bytes
  after_write-bounded none held c rest fits h = h
  after_write-bounded (some (e, n)) held c rest fits h =
      omega (arith, fits, length-append held (take n c), length-take n c)

  ltb-false : (m n : ℕ) → ltb m n ≡ false → n ≤ m
  ltb-false m n h = ground (arith, h)

  under_cap : (n : ℕ) → n ≤ max_bytes → ltb max_bytes n ≡ false
  under_cap n h = ground (arith, h)

  write_chunks-bounded :
      (s : Stream) (written : ℕ) (held : Bytes)
      → written ≡ length held
      → length held ≤ max_bytes
      → length (write_chunks write max_bytes s written held).1 ≤ max_bytes
  unfolding write_chunks
  write_chunks-bounded finished written held same h = h
  write_chunks-bounded (broken e) written held same h = h
  write_chunks-bounded (chunk c s) written held same h =
      elim (Bool-cases (ltb max_bytes (written + length c))) [
        | inl e ↦ rw e h
        | inr e ↦
            let fits = ltb-false max_bytes (written + length c) e in
            let size = length-append held c in
            rw e (
              after_write-bounded (write held c) held c _ (omega (arith, fits, same)) (
                write_chunks-bounded s (written + length c) (held ++ c) (omega (arith, same, size))
                  (omega (arith, fits, same, size))))
      ]

  after_write-ok :
      (o : Option (Raised × ℕ)) (held c b : Bytes) (rest : Outcome (Unit {0}) × Bytes)
      → after_write o held c rest ≡ (ok tt, b)
      → rest ≡ (ok tt, b)
  after_write-ok none held c b rest h = h
  after_write-ok (some (e, n)) held c b rest h = absurd (cc (ap (λ p. p.0) h))

  capped-ok :
      (t : Bool) (held b : Bytes) (rest : Outcome (Unit {0}) × Bytes)
      → (if t then (raised too_large, held) else rest) ≡ (ok tt, b)
      → rest ≡ (ok tt, b)
  capped-ok true held b rest h = absurd (cc (ap (λ p. p.0) h))
  capped-ok false held b rest h = h

  -- A loop that ends well has written all that comes in.
  write_chunks-ok :
      (s : Stream) (written : ℕ) (held b : Bytes)
      → write_chunks write max_bytes s written held ≡ (ok tt, b)
      → (rest : Bytes) × (arrives s ≡ some rest) × (b ≡ held ++ rest)
  unfolding write_chunks
  write_chunks-ok finished written held b h =
      ([], refl, ap (λ p. p.1) (sym h) ∙ sym (append_nil held))
  write_chunks-ok (broken e) written held b h = absurd (cc (ap (λ p. p.0) h))
  write_chunks-ok (chunk c s) written held b h =
      let rest = write_chunks write max_bytes s (written + length c) (held ++ c) in
      let under =
        capped-ok (ltb max_bytes (written + length c)) held b
          (after_write (write held c) held c rest) h in
      let (more, comes, same) =
        write_chunks-ok s (written + length c) (held ++ c) b
          (after_write-ok (write held c) held c b rest under) in
      (c ++ more, rw comes refl, same ∙ append_assoc held c more)

  module _ (writes : (held c : Bytes) → write held c ≡ none) where
    write_chunks-writes :
        (s : Stream) (written : ℕ) (held rest : Bytes)
        → written ≡ length held
        → arrives s ≡ some rest
        → length held + length rest ≤ max_bytes
        → write_chunks write max_bytes s written held ≡ (ok tt, held ++ rest)
    unfolding write_chunks
    write_chunks-writes finished written held rest same comes fits =
        let empty : [] ≡ rest = cc in
        ap (λ k. (ok tt, k)) (sym (append_nil held) ∙ ap (λ k. held ++ k) empty)
    write_chunks-writes (broken e) written held rest same comes fits = absurd (cc comes)
    write_chunks-writes (chunk c s) written held rest same comes fits =
        let (more, comes', whole) = map-append c (arrives s) rest comes in
        let size = length-append held c in
        let size' = ap length (sym whole) ∙ length-append c more in
        rw (under_cap (written + length c) (omega (arith, same, fits, size')), writes held c)
          (write_chunks-writes s (written + length c) (held ++ c) more (omega (arith, same, size))
              comes' (omega (arith, size, size', fits))
            ∙ ap (λ k. (ok tt, k)) (append_assoc held c more ∙ ap (λ k. held ++ k) whole))

-- `dest` after a failure.
clean_up-IsAtMost :
    (n : ℕ) (removal : Outcome (Unit {0})) (e : Raised) (dest : Option Bytes)
    → IsAtMost n dest
    → IsAtMost n (clean_up removal e dest).1
clean_up-IsAtMost n (ok t) e dest h = tt
clean_up-IsAtMost n (raised x) e dest h = h

clean_up-kept :
    (n : ℕ) (removal : Outcome (Unit {0})) (e : Raised) (dest : Option Bytes)
    → ((clean_up removal e dest).1 ≡ dest) ⊎ IsAtMost n (clean_up removal e dest).1
clean_up-kept n (ok t) e dest = inr tt
clean_up-kept n (raised x) e dest = inl refl

clean_up-raises :
    {A : Type 0} (removal : Outcome (Unit {0})) (e : Raised) (dest d : Option Bytes)
    → clean_up removal e dest ≡ (ok tt, d)
    → A
clean_up-raises (ok t) e dest d h = absurd (cc (ap (λ p. p.0) h))
clean_up-raises (raised x) e dest d h = absurd (cc (ap (λ p. p.0) h))

keep_or_clean-ok :
    (removal : Raised → Outcome (Unit {0})) (z : Outcome (Unit {0}) × Bytes) (b : Bytes)
    → keep_or_clean removal z ≡ (ok tt, some b)
    → z ≡ (ok tt, b)
keep_or_clean-ok removal (ok t, held) b h =
    let e : some held ≡ some b = ap (λ p. p.1) h in
    let same : held ≡ b = cc in ap (λ k. (ok tt, k)) same
keep_or_clean-ok removal (raised e, held) b h = clean_up-raises (removal e) e (some held) (some b) h

keep_or_clean-IsAtMost :
    (n : ℕ) (removal : Raised → Outcome (Unit {0})) (z : Outcome (Unit {0}) × Bytes)
    → length z.1 ≤ n
    → IsAtMost n (keep_or_clean removal z).1
keep_or_clean-IsAtMost n removal (ok t, held) h = h
keep_or_clean-IsAtMost n removal (raised e, held) h =
    clean_up-IsAtMost n (removal e) e (some held) h

-- Whatever comes in, and wherever a step fails, `dest` ends as it was, or it is removed, or it
-- holds at most `max_bytes` bytes.
pub download-bounded :
    (write : Bytes → Bytes → Option (Raised × ℕ)) (max_bytes : ℕ) (made : Outcome (Unit {0}))
    (response : Outcome Stream) (opened : Outcome (Unit {0}))
    (removal : Raised → Outcome (Unit {0})) (before : Option Bytes)
    → ((download write max_bytes made response opened removal before).1 ≡ before)
      ⊎ IsAtMost max_bytes (download write max_bytes made response opened removal before).1
unfolding download
download-bounded write max_bytes (raised e) response opened removal before = inl refl
download-bounded write max_bytes (ok t) (raised e) opened removal before =
    clean_up-kept max_bytes (removal e) e before
download-bounded write max_bytes (ok t) (ok s) (raised e) removal before =
    clean_up-kept max_bytes (removal e) e before
download-bounded write max_bytes (ok t) (ok s) (ok t') removal before = inr (
    keep_or_clean-IsAtMost max_bytes removal (write_chunks write max_bytes s 0 [])
      (write_chunks-bounded write max_bytes s 0 [] refl (omega arith)))

-- Where each chunk can be written, and `dest` can be opened in its directory: the download returns and
-- `dest` holds the bytes exactly if the response is good, these bytes are what comes in until it ends,
-- and they are at most `max_bytes`.
pub download-saves :
    (write : Bytes → Bytes → Option (Raised × ℕ)) (max_bytes : ℕ) (response : Outcome Stream)
    (removal : Raised → Outcome (Unit {0})) (before : Option Bytes) (b : Bytes)
    → ((held c : Bytes) → write held c ≡ none)
    → (download write max_bytes (ok tt) response (ok tt) removal before ≡ (ok tt, some b))
      ↔ ((s : Stream) × (response ≡ ok s) × (arrives s ≡ some b) × (length b ≤ max_bytes))
unfolding download
download-saves write max_bytes (raised e) removal before b writes = (
  λ h. clean_up-raises (removal e) e before (some b) h,
  λ w. let (s, good, comes, fits) = w in absurd (cc good),
)
download-saves write max_bytes (ok s) removal before b writes = (
  λ h.
      let z = keep_or_clean-ok removal (write_chunks write max_bytes s 0 []) b h in
      let (rest, comes, same) = write_chunks-ok write max_bytes s 0 [] b z in
      let bounded = write_chunks-bounded write max_bytes s 0 [] refl (omega arith) in
      (s, refl, rw same comes, rw (← ap (λ p. p.1) z) bounded),
  λ w.
      let (s', good, comes, fits) = w in
      let same : s ≡ s' = cc in
      let z =
        write_chunks-writes write max_bytes writes s 0 [] b refl (rw same comes)
          (omega (arith, fits)) in
      ap (keep_or_clean removal) z,
)
