-- ===== src/Sign/Device.antt =====
-- What a device (unoq_ota/verify.py) makes of the entries that tools/sign-artifact.py writes.
use unoq_ota.Prelude.{
  ℤ, pos, leb_ℤ, ltb_ℤ, ◌≡◌, refl, sym, ap, ◌∙◌, String, false, Option, none, some, Dict, lookup,
  ◌==◌, eq_refl, length, arith,
}
use unoq_ota.Outcome.{Outcome, ok, raised, os_error}
use unoq_ota.Python.{Python, Value, null, int, str, obj, Fields, end, field, find_field, get_field}
use unoq_ota.Artifact.{Bytes, SketchArtifact}
use unoq_ota.Board.{FlashTarget}
use unoq_ota.State.{text_or_null}
use unoq_ota.Verify.{
  Crypto, matches, canonical_bytes, check_not_before, check_expires, parse_timestamp, check_digest,
  verify_digest, verify_signature, verify_window, verify_sequence, verify_target, check_offset,
  check_size, check_link_mode, verify_manifest, without_signature,
}
use unoq_ota.Verify.Authentic.{verify_signature-accepts, without_signature-IsWithout}
use unoq_ota.Sign.{Args, HostFile, read_host, manifest_of, signature_entry}

-- The window is open now: where it has a beginning, that is not later; where it has an end, that is
-- not earlier.
abbrev pub HasBegun : Crypto → ℤ → Option String → Type 0
HasBegun cr now none = Unit
HasBegun cr now (some raw) = (t : ℤ) × (parse_timestamp cr raw ≡ ok t) × (ltb_ℤ now t ≡ false)

abbrev pub HasNotEnded : Crypto → ℤ → Option String → Type 0
HasNotEnded cr now none = Unit
HasNotEnded cr now (some raw) = (t : ℤ) × (parse_timestamp cr raw ≡ ok t) × (ltb_ℤ t now ≡ false)

abbrev pub block_of : String → String → Fields
block_of key_id sig =
    field "alg" (str "ed25519") (field "key_id" (str key_id) (field "sig" (str sig) end))

abbrev pub host_block_of : Crypto → Option HostFile → Value
host_block_of cr none = null
host_block_of cr (some h) = obj (
    field "url" (str h.url) (
      field "size" (int (pos (length h.contents)))
        (field "sha256" (str (cr.sha256_hex h.contents)) end)))

module _ (cr : Crypto) (args : Args) (a : SketchArtifact) (key_id sig : String) where
  abbrev pub signed : Option HostFile → Option String → Option String → Fields
  signed h n x = manifest_of cr args a h n x (signature_entry cr key_id sig)

  -- The entries that depend on which options are given.
  pub entries-signed :
      (h : Option HostFile) (n x : Option String)
      → (find_field "signature" (signed h n x) ≡ some (obj (block_of key_id sig)))
        × (canonical_bytes cr (signed h n x) ≡ canonical_bytes cr (manifest_of cr args a h n x end))
        × (get_field "not_before" (signed h n x) ≡ text_or_null n)
        × (get_field "expires" (signed h n x) ≡ text_or_null x)
        × (get_field "host_payload" (signed h n x) ≡ host_block_of cr h)
  unfolding manifest_of signature_entry canonical_bytes
  entries-signed none none none = (refl, refl, refl, refl, refl)
  entries-signed none none (some x) = (refl, refl, refl, refl, refl)
  entries-signed none (some n) none = (refl, refl, refl, refl, refl)
  entries-signed none (some n) (some x) = (refl, refl, refl, refl, refl)
  entries-signed (some h) none none = (refl, refl, refl, refl, refl)
  entries-signed (some h) none (some x) = (refl, refl, refl, refl, refl)
  entries-signed (some h) (some n) none = (refl, refl, refl, refl, refl)
  entries-signed (some h) (some n) (some x) = (refl, refl, refl, refl, refl)

  HasBegun-check :
      (now : ℤ) (n : Option String)
      → HasBegun cr now n
      → check_not_before cr now (text_or_null n) ≡ ok tt
  unfolding check_not_before
  HasBegun-check now none h = refl
  HasBegun-check now (some raw) (t, e, begun) = rw (e, begun)

  HasNotEnded-check :
      (now : ℤ) (x : Option String)
      → HasNotEnded cr now x
      → check_expires cr now (text_or_null x) ≡ ok tt
  unfolding check_expires
  HasNotEnded-check now none h = refl
  HasNotEnded-check now (some raw) (t, e, going) = rw (e, going)

  module _ (h : Option HostFile) (n x : Option String) where
    pub verify_window-signed :
        (now : ℤ)
        → HasBegun cr now n
        → HasNotEnded cr now x
        → verify_window cr (signed h n x) now ≡ ok tt
    unfolding verify_window
    verify_window-signed now begun going =
        rw ((entries-signed h n x).2, (entries-signed h n x).3, HasBegun-check now n begun)
          (HasNotEnded-check now x going)

    pub verify_sequence-signed :
        (last : ℤ) → leb_ℤ args.sequence last ≡ false → verify_sequence (signed h n x) last ≡ ok tt
    unfolding verify_sequence manifest_of
    verify_sequence-signed last newer = rw newer refl

    pub verify_target-signed :
        (py : Python) (target : FlashTarget)
        → py.int_of_literal args.sketch_offset ≡ some (pos target.address)
        → args.partition_size ≡ pos target.max_size
        → verify_target py (signed h n x) target ≡ ok tt
    unfolding verify_target manifest_of check_offset check_size check_link_mode
    verify_target-signed py target offset size = rw (offset, size) (ground arith)

    -- The file that the tool read is the one that the device fetched.
    pub check_digest-signed :
        ((b : Bytes) → (cr.sha256_hex b == "") ≡ false)
        → check_digest cr (signed h n x) "artifact" (some (ok a.contents)) ≡ ok tt
    unfolding check_digest manifest_of verify_digest
    check_digest-signed digests =
        rw (digests a.contents, eq_refl (cr.lower (cr.sha256_hex a.contents)))

    pub verify_signature-signed :
        (keys : Dict cr.Key) (key : cr.Key) (s : cr.Signature)
        → lookup key_id keys ≡ some key
        → cr.b64decode (str sig) ≡ some s
        → cr.verify key s (canonical_bytes cr (manifest_of cr args a h n x end)) ≡ matches
        → verify_signature cr (signed h n x) keys ≡ ok tt
    unfolding canonical_bytes
    verify_signature-signed keys key s known decoded matching =
        (verify_signature-accepts cr (signed h n x) keys).1 (record {
          block = block_of key_id sig;
          key_id = key_id;
          key = key;
          signature = s;
          signed = (entries-signed h n x).0;
          algorithm = refl;
          named = refl;
          known = known;
          decoded = decoded;
          rest = without_signature (signed h n x);
          unsigned = without_signature-IsWithout (signed h n x);
          matching = ap (cr.verify key s) ((entries-signed h n x).1) ∙ matching;
        })

module _ (cr : Crypto) where
  pub check_digest-host :
      (m : Fields) (p : Option (Outcome Bytes)) (u : Option String) (h : Option HostFile)
      → ((b : Bytes) → (cr.sha256_hex b == "") ≡ false)
      → read_host p u ≡ ok h
      → get_field "host_payload" m ≡ host_block_of cr h
      → check_digest cr m "host_payload" p ≡ ok tt
  unfolding read_host check_digest verify_digest
  check_digest-host m none u h digests e block = refl
  check_digest-host m (some r) none h digests e block = absurd (cc e)
  check_digest-host m (some (ok b)) (some u) h digests e block =
      let host : HostFile = record { url = u; contents = b } in
      let e' : some host ≡ h = cc in
      rw (block ∙ ap (host_block_of cr) (sym e'), digests b, eq_refl (cr.lower (cr.sha256_hex b)))
  check_digest-host m (some (raised (os_error x))) (some u) h digests e block = absurd (cc e)
  check_digest-host m (some (raised x)) (some u) h digests e block = absurd (cc e)

pub verify_manifest-ok :
    (py : Python) (cr : Crypto) (m : Fields) (keys : Dict cr.Key) (last now : ℤ)
    (artifact host : Option (Outcome Bytes)) (target : FlashTarget)
    → verify_signature cr m keys ≡ ok tt
    → verify_window cr m now ≡ ok tt
    → verify_sequence m last ≡ ok tt
    → verify_target py m target ≡ ok tt
    → check_digest cr m "artifact" artifact ≡ ok tt
    → check_digest cr m "host_payload" host ≡ ok tt
    → verify_manifest py cr m keys last now artifact host (some target) ≡ ok tt
unfolding verify_manifest
verify_manifest-ok py cr m keys last now artifact host target e1 e2 e3 e4 e5 e6 =
    rw (e1, e2, e3, e4, e5) e6
