-- ===== src/Sources/Offers.antt =====
-- The `check` methods of the sources, against a description of what is offered.
use unoq_ota.Prelude.{
  ℤ, ◌≡◌, ◌↔◌, ◌⊎◌, inl, inr, refl, sym, ap, ◌∙◌, Bool, true, false, Option, none, some, contains,
}
use unoq_ota.Outcome.{Outcome, ok, raised, bind-ok, ◌>>=◌}
use unoq_ota.Python.{Python, Value, obj, Fields, find_field, to_int}
use unoq_ota.Artifact.{Bytes}
use unoq_ota.Interfaces.{Update}
use unoq_ota.State.{StateFile, State, load}
use unoq_ota.Sources.{
  Reader, item, require_fields, integer, text_of, parse_manifest, unless_poisoned, offer_update,
  local_check, http_check, s3_check,
}

-- The bytes are JSON of a dict with a version, and with a sequence that `int()` takes; the update has
-- the version's text and the number that `int()` gives.
pub record IsManifest (r : Reader) (raw : Bytes) (u : Update) : Type 0 where
  pub manifest : Fields
  pub version : Value
  pub sequence : Value
  pub number : ℤ
  pub read : r.loads raw ≡ ok (obj manifest)
  pub has_version : find_field "version" manifest ≡ some version
  pub has_sequence : find_field "sequence" manifest ≡ some sequence
  pub is_number : to_int r.py sequence ≡ some number
  pub is_update : u ≡ record { version = text_of r version; sequence = number; manifest = manifest }

require_fields-ok : (v : Value) (d : Fields) → require_fields v ≡ ok d → v ≡ obj d
require_fields-ok (obj d') d h = cc
require_fields-ok v d h = absurd (cc h)

item-ok : (o : Option Value) (v : Value) → item o ≡ ok v → o ≡ some v
item-ok none v h = absurd (cc h)
item-ok (some w) v h = cc

integer-ok : (o : Option ℤ) (n : ℤ) → integer o ≡ ok n → o ≡ some n
integer-ok none n h = absurd (cc h)
integer-ok (some m) n h = cc

module _ (r : Reader) where
  parse_manifest-IsManifest :
      (raw : Bytes) (u : Update) → parse_manifest r raw ≡ ok u → IsManifest r raw u
  unfolding parse_manifest
  parse_manifest-IsManifest raw u h =
      let (v, read, h1) = bind-ok _ _ _ h in
      let (d, is_dict, h2) = bind-ok _ _ _ h1 in
      let (version, has_version, h3) = bind-ok _ _ _ h2 in
      let (sequence, has_sequence, h4) = bind-ok _ _ _ h3 in
      let (n, is_number, h5) = bind-ok _ _ _ h4 in
      record {
        manifest = d;
        version = version;
        sequence = sequence;
        number = n;
        read = read ∙ ap ok (require_fields-ok v d is_dict);
        has_version = item-ok (find_field "version" d) version has_version;
        has_sequence = item-ok (find_field "sequence" d) sequence has_sequence;
        is_number = integer-ok (to_int r.py sequence) n is_number;
        is_update = cc;
      }

  IsManifest-parse_manifest :
      (raw : Bytes) (u : Update) → IsManifest r raw u → parse_manifest r raw ≡ ok u
  unfolding parse_manifest
  IsManifest-parse_manifest raw u w =
      rw (w.read, w.has_version, w.has_sequence, w.is_number) (ap ok (sym w.is_update))

  unless_poisoned-some :
      (o : Outcome Bool) (v u : Update) → unless_poisoned r o v ≡ some u → (v ≡ u) × (o ≡ ok false)
  unless_poisoned-some (ok false) v u h = (cc, refl)
  unless_poisoned-some (ok true) v u h = absurd (cc h)
  unless_poisoned-some (raised e) v u h = absurd (cc h)

  offer_update-some :
      (o : Outcome Update) (u : Update)
      → (offer_update r o ≡ some u) ↔ ((o ≡ ok u) × (r.poisoned u.version ≡ ok false))
  unfolding offer_update
  offer_update-some (raised e) u = (λ h. absurd (cc h), λ w. absurd (cc w.0))
  offer_update-some (ok v) u = (
    λ h.
        let (same, safe) = unless_poisoned-some (r.poisoned v.version) v u h in
        (ap ok same, ap (λ (x : Update). r.poisoned x.version) (sym same) ∙ safe),
    λ w.
        let same : v ≡ u = cc w.0 in
        ap (λ (x : Update). unless_poisoned r (r.poisoned x.version) x) same ∙ rw w.1 refl,
  )

-- The HTTP source offers an update exactly if the sleep and the request succeed, the body is JSON of a
-- dict with a version and with a sequence that `int()` takes (an integer, or a text, a fraction or a truth
-- value that it converts), the update has the version's text and the converted number, and the poison list
-- can be read and does not hold the version.
pub http_check-offers :
    (r : Reader) (slept : Outcome (Unit {0})) (content : Outcome Bytes) (u : Update)
    → (http_check r slept content ≡ some u) ↔ (
        (slept ≡ ok tt)
        × ((raw : Bytes) × (content ≡ ok raw) × IsManifest r raw u)
        × (r.poisoned u.version ≡ ok false))
unfolding http_check
http_check-offers r (raised e) content u = (λ h. absurd (cc h), λ w. absurd (cc w.0))
http_check-offers r (ok t) content u = (
  λ h.
      let (parsed, safe) = (offer_update-some r (content >>= parse_manifest r) u).0 h in
      let (raw, had, manifest) = bind-ok content (parse_manifest r) u parsed in
      (refl, (raw, had, parse_manifest-IsManifest r raw u manifest), safe),
  λ w.
      let (up, (raw, had, manifest), safe) = w in
      (offer_update-some r (content >>= parse_manifest r) u).1
        (rw had (IsManifest-parse_manifest r raw u manifest), safe),
)

-- The constructor is given the agent's store: its poison list, as the state file holds it.
abbrev pub with_store : Reader → (py : Python) → StateFile py.Text → Reader
with_store r py file = record r { poisoned = λ v. load py file >>= λ s. ok (contains s.poisoned v) }

module _ (r : Reader) (py : Python) (file : StateFile py.Text) (u : Update) where
  abbrev IsUnpoisoned : Type 0
  IsUnpoisoned = (s : State) × (load py file ≡ ok s) × (contains s.poisoned u.version ≡ false)

  offer_update-IsUnpoisoned :
      (o : Outcome Update) → offer_update (with_store r py file) o ≡ some u → IsUnpoisoned
  offer_update-IsUnpoisoned o h =
      let (parsed, safe) = (offer_update-some (with_store r py file) o u).0 h in
      let (s, loads, listed) =
        bind-ok (load py file) (λ s. ok (contains s.poisoned u.version)) false safe in
      (s, loads, cc)

  local_check-IsUnpoisoned :
      (is_file : Outcome Bool) (raw : Outcome Bytes)
      → local_check (with_store r py file) is_file raw ≡ some u
      → IsUnpoisoned
  unfolding local_check
  local_check-IsUnpoisoned (ok true) raw h = offer_update-IsUnpoisoned _ h
  local_check-IsUnpoisoned (ok false) raw h = absurd (cc h)
  local_check-IsUnpoisoned (raised e) raw h = absurd (cc h)

  http_check-IsUnpoisoned :
      (slept : Outcome (Unit {0})) (raw : Outcome Bytes)
      → http_check (with_store r py file) slept raw ≡ some u
      → IsUnpoisoned
  unfolding http_check
  http_check-IsUnpoisoned (ok t) raw h = offer_update-IsUnpoisoned _ h
  http_check-IsUnpoisoned (raised e) raw h = absurd (cc h)

  s3_check-IsUnpoisoned :
      {C B : Type 0} (slept : Outcome (Unit {0})) (client : Outcome C) (get_object : C → Outcome B)
      (read : B → Outcome Bytes)
      → s3_check (with_store r py file) slept client get_object read ≡ some u
      → IsUnpoisoned
  unfolding s3_check
  s3_check-IsUnpoisoned (ok t) client get_object read h = offer_update-IsUnpoisoned _ h
  s3_check-IsUnpoisoned (raised e) client get_object read h = absurd (cc h)

-- Whatever the directory, the server or the bucket gives: an update that the local, the HTTP or the S3
-- source offers, where it is given the poison list of the state file, is not on that list, and the list has
-- been read.
pub checks-unpoisoned :
    {C B : Type 0} (r : Reader) (py : Python) (file : StateFile py.Text) (u : Update)
    (is_file : Outcome Bool) (slept : Outcome (Unit {0})) (raw : Outcome Bytes) (client : Outcome C)
    (get_object : C → Outcome B) (read : B → Outcome Bytes)
    → ((local_check (with_store r py file) is_file raw ≡ some u)
        ⊎ ((http_check (with_store r py file) slept raw ≡ some u)
            ⊎ (s3_check (with_store r py file) slept client get_object read ≡ some u)))
    → (s : State) × (load py file ≡ ok s) × (contains s.poisoned u.version ≡ false)
checks-unpoisoned r py file u is_file slept raw client get_object read (inl h) =
    local_check-IsUnpoisoned r py file u is_file raw h
checks-unpoisoned r py file u is_file slept raw client get_object read (inr (inl h)) =
    http_check-IsUnpoisoned r py file u slept raw h
checks-unpoisoned r py file u is_file slept raw client get_object read (inr (inr h)) =
    s3_check-IsUnpoisoned r py file u slept client get_object read h
