-- ===== src/Sign/Accepted.antt =====
-- What tools/sign-artifact.py signs, against what `verify_manifest` (unoq_ota/verify.py) accepts.
use unoq_ota.Prelude.{
  ℤ, pos, leb_ℤ, ltb, ◌≡◌, ap, ◌∙◌, String, Bool, true, false, Option, none, some, Dict, lookup,
  ◌==◌, arith,
}
use unoq_ota.Outcome.{
  Outcome, ok, raised, os_error, other_error, refuse_if, artifact_error, ◌>>=◌, ◌>>◌, bind-ok,
}
use unoq_ota.Python.{Python, str, Fields, end}
use unoq_ota.Artifact.{Bytes, SketchArtifact, load_artifact}
use unoq_ota.Artifact.Validity.{artifact_of, load_artifact_accepts, load_bytes-IsFlashable}
use unoq_ota.Board.{FlashTarget}
use unoq_ota.Verify.{
  Crypto, Moment, matches, canonical_bytes, before_final_z, utc_spelled, check_digest,
  verify_manifest,
}
use unoq_ota.Sign.{
  Inputs, gather, finish, same_bool, Signing, Args, HostFile, is_given, read_host, require_given,
  require_utc_qualified, manifest_of, sign_with_kms, sign_payload, load_or_exit,
  max_raw_message_bytes, sign_artifact, usable_signature, aware_or_exit,
}
use unoq_ota.Sign.Device.{
  HasBegun, HasNotEnded, signed, entries-signed, verify_window-signed, verify_sequence-signed,
  verify_target-signed, check_digest-signed, verify_signature-signed, check_digest-host,
  verify_manifest-ok,
}

-- Base64 is undone by its decoder, a digest is not empty, and both ways of signing make signatures that
-- this key verifies.
pub record IsTrueTo (cr : Crypto) (sg : Signing cr) (key : cr.Key) : Type 0 where
  pub decodes : (s : cr.Signature) → cr.b64decode (str (sg.b64encode s)) ≡ some s
  pub digests : (b : Bytes) → (cr.sha256_hex b == "") ≡ false
  pub local :
      (f : cr.Payload → cr.Signature) (p : cr.Payload)
      → sg.private_key ≡ ok f
      → cr.verify key (f p) p ≡ matches
  pub kms :
      (s : cr.Signature) (p : cr.Payload)
      → sg.kms_sign p ≡ ok (some s)
      → cr.verify key s p ≡ matches

load_artifact-contents :
    (path : String) (r : Outcome Bytes) (a : SketchArtifact)
    → load_artifact path r ≡ ok a
    → r ≡ ok a.contents
unfolding load_artifact
load_artifact-contents path (ok b) a h =
    let same = (load_artifact_accepts path b).1 (load_bytes-IsFlashable path b a h) in
    let e : artifact_of path b ≡ a = cc in ap (λ (x : SketchArtifact). ok x.contents) e
load_artifact-contents path (raised (os_error m)) a h = absurd (cc h)
load_artifact-contents path (raised e) a h = absurd (cc h)

load_or_exit-ok :
    (r : Outcome SketchArtifact) (a : SketchArtifact) → load_or_exit r ≡ ok a → r ≡ ok a
load_or_exit-ok (ok b) a h = h
load_or_exit-ok (raised (artifact_error m)) a h = absurd (cc h)
load_or_exit-ok (raised e) a h = absurd (cc h)

usable_signature-some : {A : Type 0} (o : Option A) (s : A) → usable_signature o ≡ ok s → o ≡ some s
usable_signature-some none s h = absurd (cc h)
usable_signature-some (some x) s h = cc

aware_or_exit-ok : (raw t : String) (o : Option Moment) → aware_or_exit raw o ≡ ok t → t ≡ raw
aware_or_exit-ok raw t none h = absurd (cc h)
aware_or_exit-ok raw t (some m) h = ground (arith, h)

module _ (cr : Crypto) where
  require_given-ok : (o o' : Option String) → require_given cr o ≡ ok o' → o' ≡ o
  unfolding require_given require_utc_qualified
  require_given-ok none o' h = cc
  require_given-ok (some raw) o' h =
      let (t, qualified, same) = bind-ok (require_utc_qualified cr raw) (λ x. ok (some x)) o' h in
      let same' : o' ≡ some t = cc in
      same'
      ∙ ap some (
          aware_or_exit-ok raw t (cr.fromisoformat (utc_spelled raw (before_final_z raw)))
            qualified)

  module _ (sg : Signing cr) (key : cr.Key) (true_key : IsTrueTo cr sg key) where
    sign_with_kms-verifies :
        (p : cr.Payload) (s : cr.Signature)
        → sign_with_kms cr sg p ≡ ok s
        → cr.verify key s p ≡ matches
    unfolding sign_with_kms
    sign_with_kms-verifies p s h =
        let (t, short, h1) =
          bind-ok
            (refuse_if (ltb max_raw_message_bytes (sg.payload_size p))
              (other_error "message is too long for kms:Sign"))
            (λ t. sg.kms_sign p >>= usable_signature) s h in
        let (answer, by_kms, h2) = bind-ok (sg.kms_sign p) usable_signature s h1 in
        true_key.kms s p (by_kms ∙ ap ok (usable_signature-some answer s h2))

    sign_payload-verifies :
        (kms : Bool) (p : cr.Payload) (s : cr.Signature)
        → sign_payload cr sg kms p ≡ ok s
        → cr.verify key s p ≡ matches
    unfolding sign_payload
    sign_payload-verifies true p s h =
        let (t, up, h1) = bind-ok sg.kms_client (λ t. sign_with_kms cr sg p) s h in
        sign_with_kms-verifies p s h1
    sign_payload-verifies false p s h =
        let (f, had, h1) = bind-ok sg.private_key (λ f. ok (f p)) s h in
        let e : f p ≡ s = cc in rw (← e) (true_key.local f p had)

-- Four results, after a check.
four-ok :
    {A B C D : Type 0} (r0 : Outcome (Unit {0})) (r1 : Outcome A) (r2 : Outcome B) (r3 : Outcome C)
    (r4 : Outcome D) (z : A × B × C × D)
    → (r0 >> (r1 >>= λ a. r2 >>= λ b. r3 >>= λ c. r4 >>= λ d. ok (a, b, c, d))) ≡ ok z
    → (r1 ≡ ok z.0) × (r2 ≡ ok z.1) × (r3 ≡ ok z.2) × (r4 ≡ ok z.3)
four-ok (ok t) (ok a) (ok b) (ok c) (ok d) z h = (cc, cc, cc, cc)
four-ok (raised e) r1 r2 r3 r4 z h = absurd (cc h)
four-ok (ok t) (raised e) r2 r3 r4 z h = absurd (cc h)
four-ok (ok t) (ok a) (raised e) r3 r4 z h = absurd (cc h)
four-ok (ok t) (ok a) (ok b) (raised e) r4 z h = absurd (cc h)
four-ok (ok t) (ok a) (ok b) (ok c) (raised e) z h = absurd (cc h)

gather-ok :
    (cr : Crypto) (args : Args) (z : Inputs)
    → gather cr args ≡ ok z
    → (load_artifact args.path args.artifact ≡ ok z.0)
      × (read_host args.host_payload args.host_url ≡ ok z.1)
      × (z.2 ≡ args.not_before)
      × (z.3 ≡ args.expires)
unfolding gather
gather-ok cr args z h =
    let (loads, reads, opens, closes) =
      four-ok
        (refuse_if (same_bool args.has_private_key (is_given args.kms_key_id))
          (other_error "exactly one of --private-key or --kms-key-id is required"))
        (load_or_exit (load_artifact args.path args.artifact))
        (read_host args.host_payload args.host_url) (require_given cr args.not_before)
        (require_given cr args.expires) z h in
    (
      load_or_exit-ok (load_artifact args.path args.artifact) z.0 loads,
      reads,
      require_given-ok cr args.not_before z.2 opens,
      require_given-ok cr args.expires z.3 closes,
    )

finish-ok :
    (cr : Crypto) (sg : Signing cr) (args : Args) (a : SketchArtifact) (h : Option HostFile)
    (n x : Option String) (m : Fields)
    → finish cr sg args (a, h, n, x) ≡ ok m
    → (s : cr.Signature) × (sign_payload cr sg
          (is_given args.kms_key_id)
          (canonical_bytes cr (manifest_of cr args a h n x end))
        ≡ ok s)
      × (m ≡ signed cr args a args.key_id (sg.b64encode s) h n x)
unfolding finish
finish-ok cr sg args a h n x m e =
    let (s, signs, written) =
      bind-ok
        (sign_payload cr sg (is_given args.kms_key_id)
          (canonical_bytes cr (manifest_of cr args a h n x end)))
        (λ s. ok (signed cr args a args.key_id (sg.b64encode s) h n x)) m e in
    (s, signs, cc)

-- Suppose the signing tool writes a manifest. A device accepts it, with the artifact and the host
-- payload that the tool read, if: it knows under the manifest's `key_id` a key that verifies what the
-- tool signs; its last sequence is smaller; the options give its own sketch offset and partition size; and
-- now lies within the window. The hypotheses on the libraries are that base64 is undone by its decoder
-- and that a digest is not empty.
pub sign_artifact-accepted :
    (py : Python) (cr : Crypto) (sg : Signing cr) (key : cr.Key)
    → IsTrueTo cr sg key
    → (args : Args) (m : Fields) → sign_artifact cr sg args ≡ ok m
    → (keys : Dict cr.Key) (last now : ℤ) (target : FlashTarget)
    → lookup args.key_id keys ≡ some key
    → leb_ℤ args.sequence last ≡ false
    → py.int_of_literal args.sketch_offset ≡ some (pos target.address)
    → args.partition_size ≡ pos target.max_size
    → HasBegun cr now args.not_before
    → HasNotEnded cr now args.expires
    → verify_manifest py cr m keys last now (some args.artifact) args.host_payload (some target)
      ≡ ok tt
unfolding sign_artifact verify_manifest
sign_artifact-accepted py cr sg key honest args m wrote keys last now target known newer offset size
      begun going =
    let ((a, h, n, x), gathered, h1) = bind-ok (gather cr args) (finish cr sg args) m wrote in
    let (loads, reads, opens, closes) = gather-ok cr args (a, h, n, x) gathered in
    let (s, signs, written) = finish-ok cr sg args a h n x m h1 in
    let sig = sg.b64encode s in
    let unsigned = canonical_bytes cr (manifest_of cr args a h n x end) in
    let verified =
      sign_payload-verifies cr sg key honest (is_given args.kms_key_id) unsigned s signs in
    let block = (entries-signed cr args a args.key_id sig h n x).4 in
    let fetched = load_artifact-contents args.path args.artifact a loads in
    let fields = signed cr args a args.key_id sig h n x in
    ap
      (λ f.
        verify_manifest py cr f keys last now (some args.artifact) args.host_payload (some target))
      written
    ∙ verify_manifest-ok py cr fields keys last now (some args.artifact) args.host_payload target
        (verify_signature-signed cr args a args.key_id sig h n x keys key s known (honest.decodes s)
          verified)
        (verify_window-signed cr args a args.key_id sig h n x now (rw opens begun)
          (rw closes going))
        (verify_sequence-signed cr args a args.key_id sig h n x last newer)
        (verify_target-signed cr args a args.key_id sig h n x py target offset size)
        (ap (λ r. check_digest cr fields "artifact" (some r)) fetched
          ∙ check_digest-signed cr args a args.key_id sig h n x honest.digests)
        (check_digest-host cr fields args.host_payload args.host_url h honest.digests reads block)
