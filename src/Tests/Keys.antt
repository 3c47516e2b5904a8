-- ===== src/Tests/Keys.antt =====
-- The trust store of a directory with a damaged file, and what the provider of credentials may answer.
use unoq_ota.Prelude.{String, ◌≡◌, ◌≢◌, ◌↔◌, refl, Option, some, List, [], ◌∷◌, lookup, eq_iff}
use unoq_ota.Outcome.{Outcome, ok, raised, os_error, other_error}
use unoq_ota.Artifact.{Bytes}
use unoq_ota.Python.{str, obj, arr, nil, Fields, end, field}
use unoq_ota.Credentials.{credential_process}
use unoq_ota.Keyring.{KeyFile, Codec, key_id_of, load_keyring}
use unoq_ota.Keyring.Trust.{IsDistinct, IsProvisioned, load_keyring-trusts}

abbrev key_of_bytes : Bytes → Outcome Bytes
key_of_bytes [] = raised (other_error "an Ed25519 public key is 32 bytes long")
key_of_bytes raw = ok raw

abbrev codec : Codec
codec = record {
  Key = Bytes;
  strip = λ s. s;
  b64decode = λ s. ok (4 ∷ 2 ∷ []);
  from_public_bytes = key_of_bytes;
}

abbrev damaged : KeyFile
damaged = record { name = "2025.public.b64"; contents = raised (os_error "input/output error") }

abbrev sound : KeyFile
sound = record { name = "2026.public.b64"; contents = ok "BAI=" }

abbrev key_files : List KeyFile
key_files = damaged ∷ sound ∷ []

id_of_sound : key_id_of sound ≡ "2026"
id_of_sound = refl

damaged_skipped : lookup "2025" (load_keyring codec (some key_files)) ≡ Option.none
unfolding load_keyring
damaged_skipped = refl

sound_loaded : lookup "2026" (load_keyring codec (some key_files)) ≡ some (4 ∷ 2 ∷ [])
unfolding load_keyring
sound_loaded = refl

ids_differ : key_id_of sound ≢ key_id_of damaged
ids_differ e = absurd (cc ((eq_iff (key_id_of sound) (key_id_of damaged)).1 e))

key_files-IsDistinct : IsDistinct key_files
key_files-IsDistinct = ((ids_differ, tt), (tt, tt))

load_keyring-trusts_example :
    (lookup "2026" (load_keyring codec (some key_files)) ≡ some (4 ∷ 2 ∷ []))
    ↔ IsProvisioned codec "2026" key_files (4 ∷ 2 ∷ [])
load_keyring-trusts_example =
    load_keyring-trusts codec "2026" (some key_files) (4 ∷ 2 ∷ []) key_files-IsDistinct

abbrev sessions : Fields
sessions = field "accessKeyId" (str "AKIA") (
    field "secretAccessKey" (str "s")
      (field "sessionToken" (str "t") (field "expiration" (str "2026-12-01") end)))

abbrev printed : Fields → String
printed creds = "{}"

credentials_printed :
    credential_process printed (ok (obj (field "credentials" (obj sessions) end))) ≡ ok (0, "{}")
unfolding credential_process
credentials_printed = refl

nothing_granted :
    credential_process printed (ok (obj end)) ≡ ok (1, "no usable credentials in response")
unfolding credential_process
nothing_granted = refl

-- A body that is a list escapes as an exception, with no exit code.
list_escapes :
    credential_process printed (ok (arr nil)) ≡ raised (other_error "object has no attribute 'get'")
unfolding credential_process
list_escapes = refl
