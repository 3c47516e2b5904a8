-- ===== src/Sign.antt =====
-- tools/sign-artifact.py and unoq_ota/kms_sign.py: the manifest that an operator publishes. Reading files,
-- the key and the KMS client are a parameter; a `SystemExit` and a `KmsSignError` are `other_error`.
pub mod Device
pub mod Accepted
use unoq_ota.Prelude.{
  ℕ, ℤ, pos, String, Bool, true, false, not, Option, none, some, ltb, ◌==◌, if◌then◌else◌,
}
use unoq_ota.Outcome.{
  Outcome, ok, raised, Raised, artifact_error, os_error, other_error, message, refuse_if, ◌>>=◌,
  ◌>>◌,
}
use unoq_ota.Python.{Value, int, str, obj, Fields, end, field}
use unoq_ota.Artifact.{Bytes, SketchArtifact, load_artifact}
use unoq_ota.Prelude.{length}
use unoq_ota.Verify.{Crypto, Moment, canonical_bytes, before_final_z, utc_spelled}

abbrev pub exit : {A : Type 0} → String → Outcome A
exit m = raised (other_error m)

-- How a payload is signed: by a local key, or by KMS, whose answer may hold no bytes.
pub record Signing (cr : Crypto) : Type 0 where
  pub b64encode : cr.Signature → String
  pub private_key : Outcome (cr.Payload → cr.Signature)
  pub payload_size : cr.Payload → ℕ
  pub kms_client : Outcome (Unit {0})
  pub kms_sign : cr.Payload → Outcome (Option cr.Signature)

-- The options; those with a file hold what reading it gave.
pub record Args : Type 0 where
  pub path : String
  pub artifact : Outcome Bytes
  pub version : String
  pub sequence : ℤ
  pub url : String
  pub has_private_key : Bool
  pub kms_key_id : Option String
  pub key_id : String
  pub sketch_offset : String
  pub partition_size : ℤ
  pub not_before : Option String
  pub expires : Option String
  pub host_payload : Option (Outcome Bytes)
  pub host_url : Option String

abbrev pub max_raw_message_bytes : ℕ
max_raw_message_bytes = 4096

abbrev pub is_given : Option String → Bool
is_given none = false
is_given (some s) = not (s == "")

-- `bool(args.private_key) == bool(args.kms_key_id)`
abbrev pub same_bool : Bool → Bool → Bool
same_bool true b = b
same_bool false b = not b

-- The host block, where both of its options are given.
pub record HostFile : Type 0 where
  pub url : String
  pub contents : Bytes

unfoldable pub read_host : Option (Outcome Bytes) → Option String → Outcome (Option HostFile)
read_host none none = ok none
read_host (some (ok b)) (some u) = ok (some (record { url = u; contents = b }))
read_host (some (raised (os_error m))) (some u) = exit m
read_host (some (raised e)) (some u) = raised e
read_host none (some u) = exit "--host-payload and --host-url must be supplied together"
read_host (some b) none = exit "--host-payload and --host-url must be supplied together"

abbrev pub aware_or_exit : String → Option Moment → Outcome String
aware_or_exit raw none = exit "not a valid ISO-8601 timestamp"
aware_or_exit raw (some m) = if m.aware then ok raw else exit "no UTC offset"

abbrev pub usable_signature : {A : Type 0} → Option A → Outcome A
usable_signature none = exit "kms:Sign returned no usable Signature"
usable_signature (some s) = ok s

abbrev pub load_or_exit : Outcome SketchArtifact → Outcome SketchArtifact
load_or_exit (raised (artifact_error m)) = exit m
load_or_exit r = r

abbrev pub Inputs : Type 0
Inputs = SketchArtifact × Option HostFile × Option String × Option String

module _ (cr : Crypto) where
  unfoldable pub require_utc_qualified : String → Outcome String
  unfolding before_final_z
  require_utc_qualified raw =
      aware_or_exit raw (cr.fromisoformat (utc_spelled raw (before_final_z raw)))

  unfoldable pub require_given : Option String → Outcome (Option String)
  unfolding require_utc_qualified
  require_given none = ok none
  require_given (some raw) = do text ← require_utc_qualified raw; ok (some text)

  abbrev pub with_text : String → Option String → Fields → Fields
  with_text k none d = d
  with_text k (some raw) d = field k (str raw) d

  abbrev pub with_host : Option HostFile → Fields → Fields
  with_host none d = d
  with_host (some h) d =
      field "host_payload"
        (obj (
          field "url" (str h.url) (
            field "size" (int (pos (length h.contents)))
              (field "sha256" (str (cr.sha256_hex h.contents)) end))))
        d

  -- The manifest in the order in which its entries are made, and then `rest`.
  unfoldable pub manifest_of :
      Args → SketchArtifact → Option HostFile → Option String → Option String → Fields → Fields
  manifest_of args a host not_before expires rest = field "schema" (int (pos 1)) (
      field "version" (str args.version) (
        field "sequence" (int args.sequence) (
          field "artifact"
            (obj (
              field "url" (str args.url) (
                field "size" (int (pos a.size))
                  (field "sha256" (str (cr.sha256_hex a.contents)) end))))
            (field "target"
              (obj (
                field "board" (str "arduino_uno_q") (
                  field "link_mode" (str "dynamic") (
                    field "sketch_offset" (str args.sketch_offset)
                      (field "partition_size" (int args.partition_size) end)))))
              (with_host host
                (with_text "not_before" not_before (with_text "expires" expires rest)))))))

  unfoldable pub signature_entry : String → String → Fields
  signature_entry key_id sig =
      field "signature"
        (obj
          (field "alg" (str "ed25519") (field "key_id" (str key_id) (field "sig" (str sig) end))))
        end

  module _ (sg : Signing cr) where
    unfoldable pub sign_with_kms : cr.Payload → Outcome cr.Signature
    sign_with_kms message = do
      refuse_if (ltb max_raw_message_bytes (sg.payload_size message))
          (other_error "message is too long for kms:Sign")
      answer ← sg.kms_sign message
      usable_signature answer

    unfoldable pub sign_payload : Bool → cr.Payload → Outcome cr.Signature
    unfolding sign_with_kms
    sign_payload true payload = do sg.kms_client; sign_with_kms payload
    sign_payload false payload = do sign ← sg.private_key; ok (sign payload)

  -- What `main` signs, once it is read and checked.
  unfoldable pub gather : Args → Outcome Inputs
  unfolding read_host require_given
  gather args = do
    refuse_if (same_bool args.has_private_key (is_given args.kms_key_id))
        (other_error "exactly one of --private-key or --kms-key-id is required")
    a ← load_or_exit (load_artifact args.path args.artifact)
    host ← read_host args.host_payload args.host_url
    not_before ← require_given args.not_before
    expires ← require_given args.expires
    ok (a, host, not_before, expires)

  module _ (sg : Signing cr) where
    unfoldable pub finish : Args → Inputs → Outcome Fields
    unfolding manifest_of signature_entry sign_payload
    finish args (a, host, not_before, expires) = do
      let unsigned = manifest_of args a host not_before expires end
      signature ← sign_payload sg (is_given args.kms_key_id) (canonical_bytes cr unsigned)
      ok (
          manifest_of args a host not_before expires
            (signature_entry args.key_id (sg.b64encode signature)))

    -- `main`, from the options to the manifest that is written.
    unfoldable pub sign_artifact : Args → Outcome Fields
    unfolding gather finish
    sign_artifact args = gather args >>= finish args
