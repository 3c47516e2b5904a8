-- ===== src/Verify.antt =====
-- unoq_ota/verify.py: the checks on a manifest and on the bytes that it describes. Cryptography,
-- base64, ISO-8601 parsing and case folding are a parameter, and so is what reading a file gave.
pub mod Authentic
pub mod Poisonable
use Prim.Native.Char.{code}
use Prim.Native.String
use mathlib.Core.Option
use unoq_ota.Prelude.{
  ℕ, ℤ, pos, leb_ℤ, ltb_ℤ, String, ◌<>◌, Bool, true, false, not, Option, none, some, Dict, lookup,
  eqb, ◌==◌, if◌then◌else◌,
}
use unoq_ota.Outcome.{
  Outcome, ok, raised, Raised, verification_error, os_error, refuse_if, message, ◌>>=◌, ◌>>◌,
}
use unoq_ota.Python.{
  Python, Value, null, bool, int, float, str, arr, obj, Fields, end, field, get_field, find_field,
  as_str, as_int,
}
use unoq_ota.Artifact.{Bytes}
use unoq_ota.Board.{FlashTarget}

-- What `datetime.fromisoformat` gives: whether it carries a UTC offset, and the instant then meant.
pub record Moment : Type 0 where
  pub aware : Bool
  pub instant : ℤ

-- What `key.verify` does: returns, raises `InvalidSignature`, or raises TypeError or ValueError.
pub data Verdict : Type 0 where
  matches mismatches unusable : Verdict

pub record Crypto : Type 1 where
  pub Key : Type 0
  pub Signature : Type 0
  pub Payload : Type 0
  pub encode : Fields → Payload  -- `json.dumps` with sorted keys, in bytes
  pub b64decode : Value → Option Signature
  pub verify : Key → Signature → Payload → Verdict
  pub sha256_hex : Bytes → String
  pub lower : String → String
  pub fromisoformat : String → Option Moment

abbrev pub refuse : {A : Type 0} → String → Outcome A
refuse m = raised (verification_error m false)

abbrev pub condemn : {A : Type 0} → String → Outcome A
condemn m = raised (verification_error m true)

unfoldable pub require_dict : Value → String → Outcome Fields
require_dict (obj d) what = ok d
require_dict _ what = refuse (what <> " must be an object")

-- The manifest less its signature block.
unfoldable pub without_signature : Fields → Fields
without_signature end = end
without_signature (field k v d) =
    let rest = without_signature d in if k == "signature" then rest else field k v rest

-- `raw[:-1]` where `raw` ends in "Z"
unfoldable pub before_final_z : String → Option String
before_final_z String.[] = none
before_final_z (String.◌∷◌ c s) =
    let rest = before_final_z s in
    if s == "" then (if eqb (code c) 90 then some "" else none) else Option.map (String.◌∷◌ c) rest

abbrev pub utc_spelled : String → Option String → String
utc_spelled raw none = raw
utc_spelled raw (some start) = start <> "+00:00"

unfoldable pub judge_signature : Verdict → Outcome (Unit {0})
judge_signature matches = ok tt
judge_signature mismatches = refuse "signature does not match the manifest"
judge_signature unusable = refuse "signature could not be verified"

abbrev pub is_ed25519 : Value → Bool
is_ed25519 (str s) = s == "ed25519"
is_ed25519 _ = false

-- `block.get("sig", "")`
abbrev pub sig_of : Option Value → Value
sig_of none = str ""
sig_of (some v) = v

-- `_parse_timestamp`, once `fromisoformat` has read the text
unfoldable pub require_aware : Option Moment → Outcome ℤ
require_aware none = refuse "not a valid timestamp"
require_aware (some m) = if m.aware then ok m.instant else refuse "timestamp has no UTC offset"

abbrev pub nonempty_text : Value → Option String
nonempty_text (str s) = if s == "" then none else some s
nonempty_text _ = none

module _ (cr : Crypto) where
  unfoldable pub canonical_bytes : Fields → cr.Payload
  unfolding without_signature
  canonical_bytes manifest = cr.encode (without_signature manifest)

  -- `public_keys.get(key_id)`: a list or a dict is no key, and no other value but a text is there
  unfoldable pub find_key : Dict cr.Key → Value → Outcome cr.Key
  find_key keys (arr l) = refuse "key_id is not a usable lookup key"
  find_key keys (obj d) = refuse "key_id is not a usable lookup key"
  find_key keys (str k) = elim (lookup k keys) [
    | none ↦ refuse "unknown key_id"
    | some key ↦ ok key
  ]
  find_key keys _ = refuse "unknown key_id"

  unfoldable pub decode_signature : Option cr.Signature → Outcome cr.Signature
  decode_signature none = refuse "signature is not valid base64"
  decode_signature (some s) = ok s

  unfoldable pub check_block : Dict cr.Key → Fields → Fields → Outcome (Unit {0})
  unfolding find_key decode_signature judge_signature canonical_bytes
  check_block keys manifest block = do
    refuse_if (not (is_ed25519 (get_field "alg" block)))
        (verification_error "unsupported signature alg" false)
    key ← find_key keys (get_field "key_id" block)
    signature ← decode_signature (cr.b64decode (sig_of (find_field "sig" block)))
    judge_signature (cr.verify key signature (canonical_bytes manifest))

  unfoldable pub signature_block : Option Value → Outcome Fields
  unfolding require_dict
  signature_block none = refuse "manifest has no signature block"
  signature_block (some v) = require_dict v "signature block"

  unfoldable pub verify_signature : Fields → Dict cr.Key → Outcome (Unit {0})
  unfolding check_block signature_block
  verify_signature manifest keys = do
    block ← signature_block (find_field "signature" manifest)
    check_block keys manifest block

  unfoldable pub parse_timestamp : String → Outcome ℤ
  unfolding require_aware before_final_z
  parse_timestamp raw = require_aware (cr.fromisoformat (utc_spelled raw (before_final_z raw)))

  unfoldable pub check_not_before : ℤ → Value → Outcome (Unit {0})
  unfolding parse_timestamp
  check_not_before now null = ok tt
  check_not_before now (str raw) = do
    moment ← parse_timestamp raw
    refuse_if (ltb_ℤ now moment) (verification_error "manifest is not valid yet" false)
  check_not_before now _ = refuse "not_before must be a string timestamp"

  unfoldable pub check_expires : ℤ → Value → Outcome (Unit {0})
  unfolding parse_timestamp
  check_expires now null = ok tt
  check_expires now (str raw) = do
    moment ← parse_timestamp raw
    refuse_if (ltb_ℤ moment now) (verification_error "manifest expired" false)
  check_expires now _ = refuse "expires must be a string timestamp"

  unfoldable pub verify_window : Fields → ℤ → Outcome (Unit {0})
  unfolding check_not_before check_expires
  verify_window manifest now = do
    check_not_before now (get_field "not_before" manifest)
    check_expires now (get_field "expires" manifest)

  -- `bytes` is what reading the file gave.
  unfoldable pub verify_digest : Outcome Bytes → String → Outcome (Unit {0})
  verify_digest (ok b) expected =
      refuse_if (not (cr.lower (cr.sha256_hex b) == cr.lower expected))
        (verification_error "sha256 mismatch" true)
  verify_digest (raised (os_error m)) expected = refuse m
  verify_digest (raised e) expected = raised e

  unfoldable pub check_expected : Outcome Bytes → Option String → Outcome (Unit {0})
  unfolding verify_digest
  check_expected bytes none = condemn "manifest has no usable sha256"
  check_expected bytes (some expected) = verify_digest bytes expected

  -- The digest of `artifact` or of `host_payload`, where the file is given.
  unfoldable pub check_digest : Fields → String → Option (Outcome Bytes) → Outcome (Unit {0})
  unfolding require_dict check_expected
  check_digest manifest block_name none = ok tt
  check_digest manifest block_name (some bytes) = do
    block ← require_dict (get_field block_name manifest) block_name
    check_expected bytes (nonempty_text (get_field "sha256" block))

unfoldable pub check_sequence : Option ℤ → ℤ → Outcome (Unit {0})
check_sequence none last = refuse "manifest has no usable sequence"
check_sequence (some sequence) last =
    refuse_if (leb_ℤ sequence last) (verification_error "refusing a possible replay" false)

unfoldable pub verify_sequence : Fields → ℤ → Outcome (Unit {0})
unfolding check_sequence
verify_sequence manifest last = check_sequence (as_int (get_field "sequence" manifest)) last

abbrev pub equals_pos : ℤ → ℕ → Bool
equals_pos (pos n) m = eqb n m
equals_pos n m = false

unfoldable pub check_offset : Option ℤ → ℕ → Outcome (Unit {0})
check_offset none address = condemn "manifest has no usable target.sketch_offset"
check_offset (some n) address =
    refuse_if (not (equals_pos n address))
      (verification_error "manifest sketch_offset does not match board" true)

unfoldable pub check_size : Value → ℕ → Outcome (Unit {0})
check_size null max_size = ok tt
check_size (int n) max_size =
    refuse_if (not (equals_pos n max_size))
      (verification_error "manifest partition_size does not match board" true)
check_size _ max_size = condemn "manifest has no usable target.partition_size"

unfoldable pub check_link_mode : Value → Outcome (Unit {0})
check_link_mode null = ok tt
check_link_mode (str s) =
    refuse_if (not (s == "dynamic")) (verification_error "unsupported link_mode" true)
check_link_mode _ = condemn "unsupported link_mode"

abbrev pub is_unoq : Value → Bool
is_unoq (str s) = s == "arduino_uno_q"
is_unoq _ = false

module _ (py : Python) where
  abbrev pub offset_of : Value → Option ℤ
  offset_of (str s) = py.int_of_literal s
  offset_of (int n) = some n
  offset_of _ = none

  unfoldable pub check_target : Value → FlashTarget → Outcome (Unit {0})
  unfolding check_offset check_size check_link_mode
  check_target (obj block) target = do
    refuse_if (not (is_unoq (get_field "board" block)))
        (verification_error "manifest target board is not arduino_uno_q" true)
    check_offset (offset_of (get_field "sketch_offset" block)) target.address
    check_size (get_field "partition_size" block) target.max_size
    check_link_mode (get_field "link_mode" block)
  check_target _ target = condemn "manifest has no target block"

  unfoldable pub verify_target : Fields → FlashTarget → Outcome (Unit {0})
  unfolding check_target
  verify_target manifest target = check_target (get_field "target" manifest) target

  abbrev pub verify_target_given : Fields → Option FlashTarget → Outcome (Unit {0})
  verify_target_given manifest none = ok tt
  verify_target_given manifest (some target) = verify_target manifest target

  -- `verify_manifest`: the artifact, the host payload and the target are none where left out.
  unfoldable pub verify_manifest :
      (cr : Crypto)
      → Fields
      → Dict cr.Key
      → ℤ
      → ℤ
      → Option (Outcome Bytes)
      → Option (Outcome Bytes)
      → Option FlashTarget
      → Outcome (Unit {0})
  verify_manifest cr manifest keys last now artifact host target = do
    verify_signature cr manifest keys
    verify_window cr manifest now
    verify_sequence manifest last
    verify_target_given manifest target
    check_digest cr manifest "artifact" artifact
    check_digest cr manifest "host_payload" host
