-- ===== src/Tests/Checks.antt =====
-- The checks on state, artifacts and manifests at concrete inputs.
use unoq_ota.Prelude.{
  pos, ◌≡◌, ◌≢◌, ◌↔◌, ◌⊎◌, refl, String, true, none, some, [], ◌∷◌, Dict, eq_iff,
}
use unoq_ota.Outcome.{ok, raised, Raised, verification_error, artifact_error, other_error}
use unoq_ota.Python.{Value, null, int, str, obj, arr, nil, Fields, end, field}
use unoq_ota.State.{StateFile, undecodable, text, state_of, load, payload_of}
use unoq_ota.State.Roundtrip.{load-save}
use unoq_ota.State.Robust.{set_field, poisoned-state_of_damaged}
use unoq_ota.Artifact.{Bytes, load_artifact}
use unoq_ota.Artifact.Validity.{
  IsFlashable, artifact_of, is_artifact_error, load_artifact_accepts, load_artifact-raises,
}
use unoq_ota.Artifact.Truncation.{load_artifact_truncated}
use unoq_ota.Verify.{
  Crypto, matches, verify_manifest, verify_signature, verify_window, verify_sequence, check_digest,
}
use unoq_ota.Verify.Authentic.{IsAuthentic, verify_signature-accepts}
use unoq_ota.Verify.Poisonable.{poisonable_is_authentic, verify_manifest-raises, is_verification}
use unoq_ota.Tests.Device.{python, python-IsLawful, poisoned_state, image}

load-save_example : load python (text (payload_of poisoned_state)) ≡ ok poisoned_state
load-save_example = load-save python python-IsLawful poisoned_state

abbrev poison_list : Fields
poison_list = field "poisoned" (arr nil) (field "sequence" (int (pos 3)) end)

abbrev damaged_key : String
damaged_key = "sequence"

damaged_key-poisoned : damaged_key ≢ "poisoned"
damaged_key-poisoned e = absurd (cc ((eq_iff damaged_key "poisoned").1 e))

poisoned-state_of_damaged_example :
    (state_of python (some (obj (set_field "sequence" null poison_list)))).poisoned
    ≡ (state_of python (some (obj poison_list))).poisoned
poisoned-state_of_damaged_example =
    poisoned-state_of_damaged python damaged_key null poison_list damaged_key-poisoned

abbrev no_text : StateFile Value
no_text = undecodable "invalid start byte"

undecodable_escapes : load python no_text ≡ raised (other_error "invalid start byte")
unfolding load
undecodable_escapes = refl

load_artifact_accepts_example :
    (load_artifact "staged.bin" (ok image) ≡ ok (artifact_of "staged.bin" image))
    ↔ IsFlashable image
load_artifact_accepts_example = load_artifact_accepts "staged.bin" image

image_loads : load_artifact "staged.bin" (ok image) ≡ ok (artifact_of "staged.bin" image)
unfolding load_artifact
image_loads = refl

abbrev cut : Bytes
cut = 0 ∷ 0 ∷ 0 ∷ []

cut_refused :
    load_artifact "staged.bin" (ok cut) ≡ raised (artifact_error "file too small to be an ELF")
unfolding load_artifact
cut_refused = refl

load_artifact-raises_example :
    (is_artifact_error (artifact_error "file too small to be an ELF") ≡ true)
    ⊎ (ok cut ≡ raised (artifact_error "file too small to be an ELF"))
load_artifact-raises_example =
    load_artifact-raises "staged.bin" (ok cut) (artifact_error "file too small to be an ELF")
      cut_refused

-- The image without its last byte.
abbrev start : Bytes
start =
    0 ∷ 0 ∷ 0 ∷ 0 ∷ 0 ∷ 0 ∷ 0 ∷ 1 ∷ 52 ∷ 0 ∷ 0 ∷ 0 ∷ 65 ∷ 35 ∷ 0 ∷ 0 ∷ 0 ∷ 0 ∷ 0 ∷ 0 ∷ 0 ∷ 0 ∷ 0 ∷ 0
    ∷ 0 ∷ 0 ∷ 0 ∷ 0 ∷ 0 ∷ 0 ∷ 0 ∷ 0 ∷ 52 ∷ 0 ∷ 0 ∷ 0 ∷ 0 ∷ 0 ∷ 0 ∷ 0 ∷ 0 ∷ 0 ∷ 0 ∷ 0 ∷ 0 ∷ 0 ∷ 40
    ∷ 0 ∷ 0 ∷ 0 ∷ 0 ∷ []

load_artifact_truncated_example :
    (e : Raised) × (load_artifact "staged.bin" (ok start) ≡ raised e) × (is_artifact_error e ≡ true)
load_artifact_truncated_example =
    load_artifact_truncated "staged.bin" start 0 [] (artifact_of "staged.bin" image) image_loads

-- A scheme where the payload is the manifest itself and every signature matches.
abbrev trusting : Crypto
trusting = record {
  Key = String;
  Signature = Value;
  Payload = Fields;
  encode = λ m. m;
  b64decode = λ v. some v;
  verify = λ key signature payload. matches;
  sha256_hex = λ b. "00";
  lower = λ s. s;
  fromisoformat = λ s. none;
}

abbrev keys : Dict String
keys = ("k1", "public") ∷ []

abbrev manifest : Fields
manifest =
    field "signature"
      (obj (field "alg" (str "ed25519") (field "key_id" (str "k1") (field "sig" (str "AA==") end))))
      (field "sequence" (int (pos 2)) (field "artifact" (obj (field "sha256" (str "11") end)) end))

digest_refused :
    verify_manifest python trusting manifest keys (pos 1) (pos 0) (some (ok image)) none none
    ≡ raised (verification_error "sha256 mismatch" true)
unfolding verify_manifest verify_signature verify_window verify_sequence check_digest
digest_refused = refl

poisonable_is_authentic_example :
    (verify_signature trusting manifest keys ≡ ok tt)
    × (verify_window trusting manifest (pos 0) ≡ ok tt)
    × (verify_sequence manifest (pos 1) ≡ ok tt)
poisonable_is_authentic_example =
    poisonable_is_authentic python trusting manifest keys (pos 1) (pos 0) (some (ok image)) none
      none (verification_error "sha256 mismatch" true) digest_refused refl

verify_manifest-raises_example : is_verification (verification_error "sha256 mismatch" true) ≡ true
verify_manifest-raises_example =
    verify_manifest-raises python trusting manifest keys (pos 1) (pos 0) (some (ok image)) none none
      (verification_error "sha256 mismatch" true) refl refl digest_refused

verify_signature-accepts_example :
    (verify_signature trusting manifest keys ≡ ok tt) ↔ IsAuthentic trusting keys manifest
verify_signature-accepts_example = verify_signature-accepts trusting manifest keys
