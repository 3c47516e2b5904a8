-- ===== src/Tests/Publishing.antt =====
-- A manifest that the signing tool writes, and an installation of the core, at concrete inputs.
use unoq_ota.Prelude.{
  pos, ◌≡◌, refl, String, Bool, true, false, Option, none, some, [], ◌∷◌, ◌==◌, if◌then◌else◌,
}
use unoq_ota.Outcome.{Outcome, ok, raised, other_error, os_error}
use unoq_ota.Python.{Python, Value, str, Fields}
use unoq_ota.Artifact.{load_artifact}
use unoq_ota.Verify.{Crypto, matches, verify_manifest, parse_timestamp}
use unoq_ota.Sign.{Signing, Args, HostFile, manifest_of, signature_entry, sign_artifact}
use unoq_ota.Sign.Accepted.{IsTrueTo, sign_artifact-accepted}
use unoq_ota.Board.{Installation, Entry, candidate_roots, find_core_dir}
use unoq_ota.Board.Newest.{IsFound, find_core_dir-IsFound}
use unoq_ota.Tests.Device.{python, image, board, sketch}

abbrev text_of : Value → Option String
text_of (str s) = some s
text_of v = none

-- A scheme whose signatures are texts, and a date at the instant 5.
abbrev texts : Crypto
texts = record {
  Key = String;
  Signature = String;
  Payload = Fields;
  encode = λ m. m;
  b64decode = text_of;
  verify = λ key signature payload. matches;
  sha256_hex = λ b. "00";
  lower = λ s. s;
  fromisoformat = λ s. some (record { aware = true; instant = pos 5 });
}

abbrev signer : Signing texts
signer = record {
  b64encode = λ s. s;
  private_key = ok (λ p. "signed");
  payload_size = λ p. 100;
  kms_client = raised (other_error "no client");
  kms_sign = λ p. raised (other_error "no client");
}

signer-IsTrueTo : IsTrueTo texts signer "public"
signer-IsTrueTo = record {
  decodes = λ s. refl;
  digests = λ b. refl;
  local = λ f p h. refl;
  kms = λ s p h. refl;
}

abbrev reading : Python
reading = record python { int_of_literal = λ s. some (pos 0x80F0000) }

abbrev args : Args
args = record {
  path = "staged.bin";
  artifact = ok image;
  version = "2.0";
  sequence = pos 2;
  url = "https://x/2.0";
  has_private_key = true;
  kms_key_id = none;
  key_id = "k1";
  sketch_offset = "0x80F0000";
  partition_size = pos 786432;
  not_before = some "2026-01-01T00:00:00Z";
  expires = none;
  host_payload = some (ok image);
  host_url = some "https://x/host";
}

abbrev host_file : HostFile
host_file = record { url = "https://x/host"; contents = image }

abbrev published : Fields
published =
    manifest_of texts args sketch (some host_file) (some "2026-01-01T00:00:00Z") none
      (signature_entry texts "k1" "signed")

published_written : sign_artifact texts signer args ≡ ok published
unfolding sign_artifact load_artifact
published_written = refl

starts_at : parse_timestamp texts "2026-01-01T00:00:00Z" ≡ ok (pos 5)
unfolding parse_timestamp
starts_at = refl

sign_artifact-accepted_example :
    verify_manifest reading texts published
      (("k1", "public") ∷ [])
      (pos 1)
      (pos 6)
      (some (ok image))
      (some (ok image))
      (some board)
    ≡ ok tt
sign_artifact-accepted_example =
    sign_artifact-accepted reading texts signer "public" signer-IsTrueTo args published
      published_written (("k1", "public") ∷ []) (pos 1) (pos 6) board refl refl refl refl
      (pos 5, starts_at, refl) tt

-- Two cores, the older of which comes first, and a directory that may not be looked into.
abbrev core : String → Outcome Bool → Entry
core name holds = record { name = name; holds_boards_txt = holds }

abbrev installation : Installation
installation = record {
  Folder = String;
  is_core_subpath = λ p. false;
  join_core = λ p. "core";
  join_arduino15 = λ p. "arduino15";
  iterdir = λ p.
      if p == "core"
      then ok (
          core "0.9.1" (ok true)
          ∷ core "lost+found" (raised (os_error "denied"))
          ∷ core "0.10" (ok true)
          ∷ [])
      else raised (os_error "no such directory");
  split_dots = λ s. if s == "0.9.1" then "0" ∷ "9" ∷ "1" ∷ [] else "0" ∷ "10" ∷ [];
  is_digit = λ s. true;
  int_of = λ s.
      if s == "10"
      then some 10
      else if s == "9"
      then some 9
      else if s == "1"
      then some 1
      else some 0;
  int_of_literal = λ s. none;
  boards_lines = λ p s. ok [];
  strip = λ s. s;
  partition = λ s. (s, "");
}

newest_found : find_core_dir installation "root" ≡ ok ("core", "0.10")
unfolding find_core_dir
newest_found = refl

find_core_dir-IsFound_example :
    IsFound installation (candidate_roots installation "root") "core" "0.10"
find_core_dir-IsFound_example = find_core_dir-IsFound installation "root" "core" "0.10" newest_found
