-- ===== src/Verify/Authentic.antt =====
-- What `verify_signature` accepts.
use unoq_ota.Prelude.{
  ◌≡◌, ◌≢◌, ◌↔◌, inl, inr, Bool-cases, refl, ap, String, Bool, true, false, not, Option, none, some,
  Dict, lookup, ◌==◌, eq_iff,
}
use unoq_ota.Outcome.{ok, raised, Raised, verification_error, bind-ok, refuse_if-ok}
use unoq_ota.Python.{Value, str, obj, Fields, end, field, get_field, find_field}
use unoq_ota.Verify.{
  without_signature, Crypto, Verdict, matches, mismatches, unusable, canonical_bytes, sig_of,
  find_key, check_block, signature_block, require_dict, decode_signature, judge_signature,
  is_ed25519, verify_signature,
}

-- The second object has the fields of the first in their order, less those of this key.
pub data IsWithout (k : String) : Fields → Fields → Type 0 where
  nothing : IsWithout k end end
  dropped : {v : Value} {d rest : Fields} → IsWithout k d rest → IsWithout k (field k v d) rest
  kept :
      {j : String} {v : Value} {d rest : Fields}
      → j ≢ k
      → IsWithout k d rest
      → IsWithout k (field j v d) (field j v rest)

-- The signature block names a known key, under which the block's signature matches the encoding of the
-- rest of the manifest.
pub record IsAuthentic (cr : Crypto) (keys : Dict cr.Key) (m : Fields) : Type 0 where
  pub block : Fields
  pub key_id : String
  pub key : cr.Key
  pub signature : cr.Signature
  pub signed : find_field "signature" m ≡ some (obj block)
  pub algorithm : get_field "alg" block ≡ str "ed25519"
  pub named : get_field "key_id" block ≡ str key_id
  pub known : lookup key_id keys ≡ some key
  pub decoded : cr.b64decode (sig_of (find_field "sig" block)) ≡ some signature
  pub rest : Fields
  pub unsigned : IsWithout "signature" m rest
  pub matching : cr.verify key signature (cr.encode rest) ≡ matches

pub without_signature-IsWithout : (d : Fields) → IsWithout "signature" d (without_signature d)
unfolding without_signature
without_signature-IsWithout end = nothing
without_signature-IsWithout (field k v d) =
    let ih = without_signature-IsWithout d in
    elim (Bool-cases (k == "signature")) [
      | inl e ↦ rw (e, (eq_iff k "signature").0 e) (dropped ih)
      | inr e ↦ rw e (kept (λ same. absurd (cc (e, (eq_iff k "signature").1 same))) ih)
    ]

IsWithout-without_signature :
    {d rest : Fields} → IsWithout "signature" d rest → without_signature d ≡ rest
unfolding without_signature
IsWithout-without_signature nothing = refl
IsWithout-without_signature (dropped w) = IsWithout-without_signature w
IsWithout-without_signature (kept {j} {v} {d} {rest} ne w) =
    let ih = IsWithout-without_signature w in
    elim (Bool-cases (j == "signature")) [
      | inl e ↦ absurd (ne ((eq_iff j "signature").0 e))
      | inr e ↦ rw e (ap (field j v) ih)
    ]

not-false : (b : Bool) → not b ≡ false → b ≡ true
not-false true h = refl
not-false false h = absurd (cc h)

is_ed25519-str : (v : Value) → not (is_ed25519 v) ≡ false → v ≡ str "ed25519"
is_ed25519-str (str s) h = ap str ((eq_iff s "ed25519").0 (not-false (s == "ed25519") h))
is_ed25519-str v h = absurd (cc h)

judge_signature-matches : (v : Verdict) → judge_signature v ≡ ok tt → v ≡ matches
unfolding judge_signature
judge_signature-matches matches h = refl
judge_signature-matches mismatches h = absurd (cc h)
judge_signature-matches unusable h = absurd (cc h)

module _ (cr : Crypto) (keys : Dict cr.Key) where
  signature_block-obj :
      (o : Option Value) (block : Fields) → signature_block cr o ≡ ok block → o ≡ some (obj block)
  unfolding signature_block require_dict
  signature_block-obj none block h = absurd (cc h)
  signature_block-obj (some (obj d)) block h = cc h
  signature_block-obj (some v) block h = absurd (cc h)

  decode_signature-some :
      (o : Option cr.Signature) (s : cr.Signature) → decode_signature cr o ≡ ok s → o ≡ some s
  unfolding decode_signature
  decode_signature-some none s h = absurd (cc h)
  decode_signature-some (some x) s h = cc h

  found-key :
      (o : Option cr.Key) (e : Raised) (key : cr.Key)
      → (elim o [ none ↦ raised e | some k ↦ ok k ]) ≡ ok key
      → o ≡ some key
  found-key none e key h = absurd (cc h)
  found-key (some k) e key h = cc h

  find_key-str :
      (v : Value) (key : cr.Key)
      → find_key cr keys v ≡ ok key
      → (id : String) × (v ≡ str id) × (lookup id keys ≡ some key)
  unfolding find_key
  find_key-str (str id) key h =
      (id, refl, found-key (lookup id keys) (verification_error "unknown key_id" false) key h)
  find_key-str v key h = absurd (cc h)

  check_block-IsAuthentic :
      (m block : Fields)
      → find_field "signature" m ≡ some (obj block)
      → check_block cr keys m block ≡ ok tt
      → IsAuthentic cr keys m
  unfolding check_block canonical_bytes
  check_block-IsAuthentic m block signed h =
      let (t, algorithm, h1) = bind-ok _ _ _ h in
      let (key, found, h2) = bind-ok _ _ _ h1 in
      let (signature, decoded, h3) = bind-ok _ _ _ h2 in
      let (id, named, known) = find_key-str (get_field "key_id" block) key found in
      record {
        block = block;
        key_id = id;
        key = key;
        signature = signature;
        signed = signed;
        algorithm = is_ed25519-str (get_field "alg" block) (refuse_if-ok _ _ algorithm);
        named = named;
        known = known;
        decoded = decode_signature-some _ signature decoded;
        rest = without_signature m;
        unsigned = without_signature-IsWithout m;
        matching = judge_signature-matches _ h3;
      }

  check_block-accepts :
      (m : Fields) (w : IsAuthentic cr keys m) → check_block cr keys m w.block ≡ ok tt
  unfolding check_block find_key decode_signature judge_signature canonical_bytes
  check_block-accepts m w =
      rw
        (
          w.algorithm,
          w.named,
          find_key,
          w.known,
          w.decoded,
          canonical_bytes,
          IsWithout-without_signature w.unsigned,
          w.matching,
        )
        refl

-- `verify_signature` passes exactly when the manifest has a signature block for ed25519 that names a
-- known key, and the block's signature decodes and matches, under that key, the encoding of the
-- manifest's fields in their order, all of them but the block.
pub verify_signature-accepts :
    (cr : Crypto) (m : Fields) (keys : Dict cr.Key)
    → (verify_signature cr m keys ≡ ok tt) ↔ IsAuthentic cr keys m
unfolding verify_signature signature_block
verify_signature-accepts cr m keys = (
  λ h.
      let (block, signed, checked) =
        bind-ok (signature_block cr (find_field "signature" m)) (check_block cr keys m) tt h in
      check_block-IsAuthentic cr keys m block (signature_block-obj cr keys _ block signed) checked,
  λ w. rw (w.signed) (check_block-accepts cr keys m w),
)
