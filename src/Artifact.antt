-- ===== src/Artifact.antt =====
-- unoq_ota/artifact.py: the sketch header and the checks that an image passes before it is flashed.
pub mod Validity
pub mod Truncation
use unoq_ota.Prelude.{
  ℕ, ◌+◌, ◌*◌, ◌/◌, ◌%◌, ◌^◌, String, Bool, not, Option, none, some, List, length, get_or, ltb, eqb,
  if◌then◌else◌,
}
use unoq_ota.Outcome.{
  Outcome, ok, raised, Raised, artifact_error, os_error, other_error, refuse_if, message, ◌>>=◌,
  ◌>>◌,
}

-- The bytes of a file, each below 256.
abbrev pub Bytes : Type 0
Bytes = List ℕ

abbrev pub header_offset : ℕ
header_offset = 7

abbrev pub sketch_magic : ℕ
sketch_magic = 0x2341

abbrev pub flag_wait_for_app : ℕ
flag_wait_for_app = 0x08

pub record SketchHeader : Type 0 where
  pub ver : ℕ
  pub length : ℕ
  pub magic : ℕ
  pub flags : ℕ

-- The digest is a function of the bytes, so the artifact holds those.
pub record SketchArtifact : Type 0 where
  pub path : String
  pub header : SketchHeader
  pub size : ℕ
  pub contents : Bytes

-- The numbers that two and four bytes make, the lowest first.
abbrev pub word_at : Bytes → ℕ → ℕ
word_at b i = get_or b i 0 + 256 * get_or b (i + 1) 0

abbrev pub long_at : Bytes → ℕ → ℕ
long_at b i =
    get_or b i 0
    + 256 * get_or b (i + 1) 0
    + 65536 * get_or b (i + 2) 0
    + 16777216 * get_or b (i + 3) 0

-- `data[i]`, an IndexError past the end
abbrev pub u8_at : Bytes → ℕ → Outcome ℕ
u8_at b i =
    if ltb i (length b) then ok (get_or b i 0) else raised (other_error "index out of range")

-- `struct.unpack_from("<H", data, i)` and `"<I"`, a `struct.error` past the end
abbrev pub u16_at : Bytes → ℕ → Outcome ℕ
u16_at b i =
    if ltb (length b) (i + 2)
    then raised (other_error "unpack_from requires a larger buffer")
    else ok (word_at b i)

abbrev pub u32_at : Bytes → ℕ → Outcome ℕ
u32_at b i =
    if ltb (length b) (i + 4)
    then raised (other_error "unpack_from requires a larger buffer")
    else ok (long_at b i)

unfoldable pub parse_header : Bytes → Outcome SketchHeader
parse_header b = do
  refuse_if (ltb (length b) (header_offset + 8))
      (artifact_error "file too small to hold a sketch header")
  ver ← u8_at b header_offset
  length ← u32_at b 8
  magic ← u16_at b 12
  flags ← u8_at b 14
  ok (record { ver = ver; length = length; magic = magic; flags = flags })

-- `header.flags & FLAG_WAIT_FOR_APP`
abbrev pub waits_for_app : ℕ → Bool
waits_for_app flags = eqb (flags / flag_wait_for_app % 2) 1

-- The end of the ELF's section header table.
abbrev pub table_end : Bytes → Outcome ℕ
table_end b = do
  shoff ← u32_at b 32
  shentsize ← u16_at b 46
  shnum ← u16_at b 48
  ok (shoff + shnum * shentsize)

-- The checks of `load_artifact` once the header is read, in their order.
unfoldable pub check_artifact : String → Bytes → SketchHeader → Outcome SketchArtifact
check_artifact path b h = do
  refuse_if (not (eqb h.ver 1)) (artifact_error "unsupported sketch header version")
  refuse_if (not (eqb h.magic sketch_magic)) (artifact_error "bad sketch magic")
  refuse_if (waits_for_app h.flags) (artifact_error "artifact sets wait_for_app")
  refuse_if (ltb (length b) h.length) (artifact_error "artifact is truncated")
  refuse_if (not (eqb h.length (length b))) (artifact_error "declared length disagrees")
  end ← table_end b
  refuse_if (not (eqb end (length b))) (artifact_error "truncated or corrupt")
  ok (record { path = path; header = h; size = length b; contents = b })

-- `load_artifact`, from the bytes that `read_bytes` gave.
unfoldable pub load_bytes : String → Bytes → Outcome SketchArtifact
unfolding parse_header check_artifact
load_bytes path b =
    refuse_if (ltb (length b) 52) (artifact_error "file too small to be an ELF")
    >> (parse_header b >>= check_artifact path b)

-- `read_bytes` is the parameter: an `OSError` becomes an `ArtifactError`, anything else escapes.
unfoldable pub load_artifact : String → Outcome Bytes → Outcome SketchArtifact
unfolding load_bytes
load_artifact path (ok b) = load_bytes path b
load_artifact path (raised (os_error m)) = raised (artifact_error m)
load_artifact path (raised e) = raised e
