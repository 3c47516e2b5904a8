-- ===== src/Sources.antt =====
-- unoq_ota/sources: where manifests come from, the capped downloads, and the report wrapper. HTTP,
-- botocore, the file system, JSON and the caller's poison predicate are parameters.
pub mod Offers
pub mod Downloads
use unoq_ota.Prelude.{
  ℕ, ℤ, pos, negsuc, ◌+◌, String, Bool, true, false, not, ◌||◌, Option, none, some, List, [], ◌∷◌,
  ◌++◌, length, take, ltb, ◌==◌, if◌then◌else◌,
}
use unoq_ota.Outcome.{Outcome, ok, raised, Raised, other_error, refuse_if, ◌>>=◌, ◌>>◌}
use unoq_ota.Python.{
  Python, Value, null, bool, int, float, str, arr, obj, Fields, end, field, find_field, to_int,
}
use unoq_ota.Artifact.{Bytes}
use unoq_ota.Interfaces.{Update, Status}
use unoq_ota.Events.{Journal, Env, record_event}

-- What the sources share: reading JSON, and the predicate given to the constructor.
pub record Reader : Type 1 where
  pub py : Python
  pub loads : Bytes → Outcome Value
  pub str_of : Value → String  -- `str(v)` of what is no text
  pub poisoned : String → Outcome Bool

abbrev pub item : Option Value → Outcome Value
item none = raised (other_error "KeyError")
item (some v) = ok v

-- `manifest[...]` is a TypeError on all but a dict
abbrev pub require_fields : Value → Outcome Fields
require_fields (obj d) = ok d
require_fields _ = raised (other_error "TypeError")

abbrev pub integer : Option ℤ → Outcome ℤ
integer none = raised (other_error "int() failed")
integer (some n) = ok n

module _ (r : Reader) where
  abbrev pub text_of : Value → String
  text_of (str s) = s
  text_of v = r.str_of v

  abbrev pub update_of : Fields → Value → ℤ → Update
  update_of d v n = record { version = text_of v; sequence = n; manifest = d }

  -- From the bytes of `manifest.json` to the update.
  unfoldable pub parse_manifest : Bytes → Outcome Update
  parse_manifest raw = do
    manifest ← r.loads raw
    d ← require_fields manifest
    version ← item (find_field "version" d)
    sequence ← item (find_field "sequence" d)
    n ← integer (to_int r.py sequence)
    ok (update_of d version n)

  abbrev pub unless_poisoned : Outcome Bool → Update → Option Update
  unless_poisoned (ok false) u = some u
  unless_poisoned (ok true) u = none
  unless_poisoned (raised e) u = none

  unfoldable pub offer_update : Outcome Update → Option Update
  offer_update (raised e) = none
  offer_update (ok u) = unless_poisoned (r.poisoned u.version) u

  -- `LocalFileSource.check`, given what `is_file` and `read_bytes` give
  unfoldable pub local_check : Outcome Bool → Outcome Bytes → Option Update
  unfolding parse_manifest offer_update
  local_check (raised e) raw = none
  local_check (ok false) raw = none
  local_check (ok true) raw = offer_update (raw >>= parse_manifest)

  -- `HttpManifestSource.check`, given what sleeping, the request with its status check, and reading the
  -- body give
  unfoldable pub http_check : Outcome (Unit {0}) → Outcome Bytes → Option Update
  unfolding parse_manifest offer_update
  http_check (raised e) content = none
  http_check (ok t) content = offer_update (content >>= parse_manifest)

  -- `S3PresignedSource.check`: the client, `get_object` and reading the body
  unfoldable pub s3_check :
      {C B : Type 0}
      → Outcome (Unit {0})
      → Outcome C
      → (C → Outcome B)
      → (B → Outcome Bytes)
      → Option Update
  unfolding parse_manifest offer_update
  s3_check (raised e) client get_object read = none
  s3_check (ok t) client get_object read =
      offer_update (client >>= λ c. get_object c >>= λ b. read b >>= parse_manifest)

-- `require_jitter_s`: an integer is converted as `float_of_int` says, which is none on OverflowError.
module _ (is_finite is_negative : String → Bool) (float_of_int : ℤ → Option String) where
  abbrev pub refuse_jitter : Outcome String
  refuse_jitter = raised (other_error "jitter_s must be a finite non-negative number")

  abbrev pub converted : Option String → Outcome String
  converted none = raised (other_error "int too large to convert to float")
  converted (some f) = ok f

  unfoldable pub require_jitter_s : Value → Outcome String
  require_jitter_s (float f) = if not (is_finite f) || is_negative f then refuse_jitter else ok f
  require_jitter_s (int (pos n)) = converted (float_of_int (pos n))
  require_jitter_s (int (negsuc n)) = converted (float_of_int (negsuc n)) >>= λ f. refuse_jitter
  require_jitter_s _ = refuse_jitter

-- The body of a response as it comes in: it ends, or it breaks off.
pub data Stream : Type 0 where
  finished : Stream
  broken : Raised → Stream
  chunk : Bytes → Stream → Stream

abbrev pub too_large : Raised
too_large = other_error "artifact exceeded max_bytes"

-- `rest` where the chunk is written, and else the part of the chunk that is.
abbrev pub after_write :
    Option (Raised × ℕ) → Bytes → Bytes → Outcome (Unit {0}) × Bytes → Outcome (Unit {0}) × Bytes
after_write none held c rest = rest
after_write (some (e, n)) held c rest = (raised e, held ++ take n c)

-- The loop of `download_s3` ends at an empty chunk as well.
unfoldable pub until_empty : Stream → Stream
until_empty finished = finished
until_empty (broken e) = broken e
until_empty (chunk [] s) = finished
until_empty (chunk (b ∷ c) s) = chunk (b ∷ c) (until_empty s)

-- The `except` clause: `removal` is what unlinking gives, and `dest` what the file held.
abbrev pub clean_up : Outcome (Unit {0}) → Raised → Option Bytes → Outcome (Unit {0}) × Option Bytes
clean_up (ok t) e dest = (raised e, none)
clean_up (raised x) e dest = (raised e, dest)

abbrev pub keep_or_clean :
    (Raised → Outcome (Unit {0})) → Outcome (Unit {0}) × Bytes → Outcome (Unit {0}) × Option Bytes
keep_or_clean removal (ok t, held) = (ok tt, some held)
keep_or_clean removal (raised e, held) = clean_up (removal e) e (some held)

-- `write` tells, from what the file holds, whether writing a chunk raises, and how much of it is
-- written then.
module _ (write : Bytes → Bytes → Option (Raised × ℕ)) (max_bytes : ℕ) where
  -- The loop over the chunks: the outcome, and what the file then holds.
  unfoldable pub write_chunks : Stream → ℕ → Bytes → Outcome (Unit {0}) × Bytes
  write_chunks finished written held = (ok tt, held)
  write_chunks (broken e) written held = (raised e, held)
  write_chunks (chunk c s) written held =
      let rest = write_chunks s (written + length c) (held ++ c) in
      if ltb max_bytes (written + length c)
      then (raised too_large, held)
      else after_write (write held c) held c rest

  -- Where `dest` cannot be opened it still holds what it held.
  abbrev pub save_stream :
      (Raised → Outcome (Unit {0}))
      → Outcome (Unit {0})
      → Option Bytes
      → Stream
      → Outcome (Unit {0}) × Option Bytes
  save_stream removal (raised e) before s = clean_up (removal e) e before
  save_stream removal (ok t) before s = keep_or_clean removal (write_chunks s 0 [])

  -- `download`: making the directory, the request with its status check, opening and removing `dest`.
  unfoldable pub download :
      Outcome (Unit {0})
      → Outcome Stream
      → Outcome (Unit {0})
      → (Raised → Outcome (Unit {0}))
      → Option Bytes
      → Outcome (Unit {0}) × Option Bytes
  unfolding write_chunks
  download (raised e) response opened removal before = (raised e, before)
  download (ok t) (raised e) opened removal before = clean_up (removal e) e before
  download (ok t) (ok s) opened removal before = save_stream removal opened before s

  -- `download_s3`: the bucket and the key come first, then the client with `get_object`.
  unfoldable pub download_s3 :
      Outcome (String × String)
      → Outcome (Unit {0})
      → (String × String → Outcome Stream)
      → Outcome (Unit {0})
      → (Raised → Outcome (Unit {0}))
      → Option Bytes
      → Outcome (Unit {0}) × Option Bytes
  unfolding download until_empty
  download_s3 (raised e) made get_object opened removal before = (raised e, before)
  download_s3 (ok object) made get_object opened removal before =
      download made (get_object object >>= λ s. ok (until_empty s)) opened removal before

-- What `urlsplit` gives.
pub record Parts : Type 0 where
  pub scheme : String
  pub netloc : String
  pub path : String
  pub query : String
  pub fragment : String

module _ (lstrip_slashes : String → String) where
  unfoldable pub parse_s3_uri : Outcome Parts → Outcome (String × String)
  parse_s3_uri split = do
    parts ← split
    refuse_if (not (parts.scheme == "s3")) (other_error "expected an s3:// URI")
    refuse_if (parts.netloc == "") (other_error "s3 URI is missing a bucket")
    refuse_if (lstrip_slashes parts.path == "") (other_error "s3 URI is missing a key")
    refuse_if (not (parts.query == "") || not (parts.fragment == ""))
        (other_error "s3 URI must not carry a query or fragment")
    ok (parts.netloc, lstrip_slashes parts.path)

abbrev pub status_value : Status → String
status_value Status.downloading = "downloading"
status_value Status.verifying = "verifying"
status_value Status.staged = "staged"
status_value Status.waiting_for_gate = "waiting_for_gate"
status_value Status.flashing = "flashing"
status_value Status.committed = "committed"
status_value Status.rolled_back = "rolled_back"
status_value Status.rejected = "rejected"
status_value Status.verified = "verified"

-- What `ReportingSource.report` records.
abbrev pub report_fields : String → Status → String → Fields
report_fields version status detail = field "kind" (str "update") (
    field "version" (str version)
      (field "status" (str (status_value status)) (field "detail" (str detail) end)))

-- `ReportingSource.report`, where `inner` is the outcome of the wrapped source's report.
unfoldable pub report :
    Env → Outcome (Unit {0}) → String → Status → String → Journal → Outcome (Unit {0}) × Journal
report env inner version status detail j =
    (inner, record_event env (report_fields version status detail) j)
