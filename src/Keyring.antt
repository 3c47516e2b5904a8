-- ===== src/Keyring.antt =====
-- unoq_ota/keyring.py: the trust store that is read from a directory. base64, the parsing of a key and
-- `strip` are a parameter, and so is what listing the directory and reading its files gave.
pub mod Trust
use Prim.Native.String
use unoq_ota.Prelude.{ℕ, zero, suc, ◌-◌, String, Option, none, some, List, [], ◌∷◌, Dict, insert}
use unoq_ota.Outcome.{Outcome, ok, raised, ◌>>=◌}
use unoq_ota.Artifact.{Bytes}

-- `path.name`, and what `path.read_text()` gives
pub record KeyFile : Type 0 where
  pub name : String
  pub contents : Outcome String

pub record Codec : Type 1 where
  pub Key : Type 0
  pub strip : String → String
  pub b64decode : String → Outcome Bytes  -- with `validate=True`
  pub from_public_bytes : Bytes → Outcome Key

-- `len(s)`
abbrev text_length : String → ℕ
text_length String.[] = 0
text_length (String.◌∷◌ c s) = suc (text_length s)

-- `s[:n]`
abbrev text_take : ℕ → String → String
text_take zero s = ""
text_take (suc n) String.[] = ""
text_take (suc n) (String.◌∷◌ c s) = String.◌∷◌ c (text_take n s)

-- The name less its ending, `.public.b64`.
abbrev pub key_id_of : KeyFile → String
key_id_of f = text_take (text_length f.name - 11) f.name

module _ (co : Codec) where
  -- The body of the `try`.
  abbrev pub key_of : KeyFile → Outcome co.Key
  key_of f = do s ← f.contents; raw ← co.b64decode (co.strip s); co.from_public_bytes raw

  -- A file that raises anything is skipped.
  abbrev pub with_key : String → Outcome co.Key → Dict co.Key → Dict co.Key
  with_key id (ok key) keys = insert id key keys
  with_key id (raised e) keys = keys

  -- The loop, from the keys that it has put in already.
  unfoldable pub load_keys : List KeyFile → Dict co.Key → Dict co.Key
  load_keys [] keys = keys
  load_keys (f ∷ files) keys = load_keys files (with_key (key_id_of f) (key_of f) keys)

  -- `load_keyring`, from the sorted files of the directory if it is there
  unfoldable pub load_keyring : Option (List KeyFile) → Dict co.Key
  unfolding load_keys
  load_keyring none = []
  load_keyring (some files) = load_keys files []
