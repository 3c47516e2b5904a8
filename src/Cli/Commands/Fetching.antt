-- ===== src/Cli/Commands/Fetching.antt =====
-- What `_fetch` (unoq_ota/cli.py) leaves on disk.
use unoq_ota.Prelude.{
  ℕ, ◌≡◌, ◌⊎◌, inl, refl, String, Bool, true, false, not, ◌&&◌, ◌||◌, Option, ◌==◌, if◌then◌else◌,
}
use unoq_ota.Outcome.{Outcome, ok, raised, other_error, ◌>>=◌}
use unoq_ota.Artifact.{Bytes}
use unoq_ota.Sources.{download, download_s3, until_empty}
use unoq_ota.Sources.Downloads.{IsAtMost, download-bounded}
use unoq_ota.Cli.Commands.{Remote, fetch_scheme, fetch_local, fetch}

-- What stood there, or at most as many bytes.
abbrev pub IsKept : ℕ → Option Bytes → Option Bytes → Type 0
IsKept n before dest = (dest ≡ before) ⊎ IsAtMost n dest

module _ (remote : Remote) (max_bytes : ℕ) where
  download_s3-IsKept :
      (object : Outcome (String × String)) (before : Option Bytes)
      → IsKept max_bytes before
          (download_s3 remote.write max_bytes object remote.made remote.s3_response remote.opened
            remote.removal before).1
  unfolding download_s3
  download_s3-IsKept (raised e) before = inl refl
  download_s3-IsKept (ok object) before =
      download-bounded remote.write max_bytes remote.made
        (remote.s3_response object >>= λ s. ok (until_empty s)) remote.opened remote.removal before

  -- The tests on the scheme, one after another; `refused` is what an unknown scheme gives.
  chosen-IsKept :
      (web s3 unknown : Bool) (before : Option Bytes)
      (by_http by_s3 by_path : Outcome (Unit {0}) × Option Bytes)
      → unknown ≡ true
      → IsKept max_bytes before by_http.1
      → IsKept max_bytes before by_s3.1
      → IsKept max_bytes before
          (if web
            then by_http
            else if s3
            then by_s3
            else if unknown
            then (raised (other_error "unsupported URL scheme"), before)
            else by_path).1
  chosen-IsKept true s3 unknown before by_http by_s3 by_path e h k = h
  chosen-IsKept false true unknown before by_http by_s3 by_path e h k = k
  chosen-IsKept false false true before by_http by_s3 by_path e h k = inl refl
  chosen-IsKept false false false before by_http by_s3 by_path e h k = absurd (cc e)

  fetch_scheme-IsKept :
      (scheme url : String) (source_dir : Option String) (before : Option Bytes)
      → (scheme == "") ≡ false
      → (scheme == "file") ≡ false
      → IsKept max_bytes before (fetch_scheme remote max_bytes (ok scheme) url source_dir before).1
  fetch_scheme-IsKept scheme url source_dir before e f =
      chosen-IsKept (scheme == "http" || scheme == "https") (scheme == "s3")
        (not (scheme == "") && not (scheme == "file")) before
        (download remote.write max_bytes remote.made (remote.response url) remote.opened
          remote.removal before)
        (download_s3 remote.write max_bytes (remote.s3_object url) remote.made remote.s3_response
          remote.opened remote.removal before)
        (fetch_local remote max_bytes scheme url source_dir before) (rw (e, f) refl)
        (download-bounded remote.write max_bytes remote.made (remote.response url) remote.opened
          remote.removal before)
        (download_s3-IsKept (remote.s3_object url) before)

-- Fetching a URL of any scheme but `file`, or of none, leaves the destination as it was, or removed, or with
-- at most `max_bytes` bytes, whatever a server sends and wherever a step fails. (A local path is copied
-- whole, with no cap.)
pub fetch-bounded :
    (remote : Remote) (max_bytes : ℕ) (scheme url : String) (source_dir : Option String)
    (before : Option Bytes)
    → remote.scheme_of url ≡ ok scheme
    → (scheme == "") ≡ false
    → (scheme == "file") ≡ false
    → IsKept max_bytes before (fetch remote max_bytes url source_dir before).1
unfolding fetch
fetch-bounded remote max_bytes scheme url source_dir before is_scheme e f =
    rw is_scheme (fetch_scheme-IsKept remote max_bytes scheme url source_dir before e f)
