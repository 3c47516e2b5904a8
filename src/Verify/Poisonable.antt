-- ===== src/Verify/Poisonable.antt =====
-- Which failures of `verify_manifest` may poison a version, and what it may raise at all.
use unoq_ota.Prelude.{ℤ, ◌≡◌, refl, String, Bool, true, false, Option, none, some, Dict, arith}
use unoq_ota.Outcome.{
  Outcome, ok, raised, Raised, is_poisonable, verification_error, os_error, refuse_if, ◌>>◌,
}
use unoq_ota.Python.{Python, Value, obj, Fields, get_field}
use unoq_ota.Artifact.{Bytes}
use unoq_ota.Board.{FlashTarget}
use unoq_ota.Verify.{
  Crypto, find_key, check_block, verify_signature, check_not_before, check_expires, verify_window,
  verify_sequence, verify_target_given, verify_target, check_target, check_offset, check_size,
  check_link_mode, offset_of, check_digest, verify_manifest, find_key,
}

-- The check passes, or refuses the manifest without condemning the version.
abbrev IsMild : {A : Type 0} → Outcome A → Type 0
IsMild (ok a) = Unit
IsMild (raised e) = is_poisonable e ≡ false

IsMild-then : (m k : Outcome (Unit {0})) → IsMild m → IsMild k → IsMild (m >> k)
IsMild-then (ok t) k hm hk = hk
IsMild-then (raised e) k hm hk = hm

-- After a mild check, a poisonable failure comes from what follows.
past_mild :
    (m k : Outcome (Unit {0})) (e : Raised)
    → IsMild m
    → (m >> k) ≡ raised e
    → is_poisonable e ≡ true
    → (m ≡ ok tt) × (k ≡ raised e)
past_mild (ok t) k e mild failed bad = (refl, failed)
past_mild (raised r) k e mild failed bad = cc (mild, failed, bad)

module _ (cr : Crypto) where
  IsMild-find_key : (keys : Dict cr.Key) (v : Value) → IsMild (find_key cr keys v)
  unfolding find_key
  IsMild-find_key keys v = ground arith

  IsMild-check_block :
      (keys : Dict cr.Key) (m block : Fields) → IsMild (check_block cr keys m block)
  unfolding check_block
  IsMild-check_block keys m block = ground arith

  IsMild-verify_signature : (keys : Dict cr.Key) (m : Fields) → IsMild (verify_signature cr m keys)
  unfolding verify_signature
  IsMild-verify_signature keys m = ground arith

  IsMild-check_not_before : (now : ℤ) (v : Value) → IsMild (check_not_before cr now v)
  unfolding check_not_before
  IsMild-check_not_before now v = ground arith

  IsMild-check_expires : (now : ℤ) (v : Value) → IsMild (check_expires cr now v)
  unfolding check_expires
  IsMild-check_expires now v = ground arith

  IsMild-verify_window : (m : Fields) (now : ℤ) → IsMild (verify_window cr m now)
  unfolding verify_window
  IsMild-verify_window m now =
      let from_ = get_field "not_before" m in
      let until = get_field "expires" m in
      IsMild-then (check_not_before cr now from_) (check_expires cr now until)
        (IsMild-check_not_before now from_) (IsMild-check_expires now until)

IsMild-verify_sequence : (m : Fields) (last : ℤ) → IsMild (verify_sequence m last)
unfolding verify_sequence
IsMild-verify_sequence m last = ground arith

-- If `verify_manifest` fails in the way for which the agent poisons a version, then the signature, the
-- validity window and the sequence of the manifest had passed: nothing unsigned, expired or replayed
-- poisons a version.
pub poisonable_is_authentic :
    (py : Python) (cr : Crypto) (m : Fields) (keys : Dict cr.Key) (last now : ℤ)
    (artifact host : Option (Outcome Bytes)) (target : Option FlashTarget) (e : Raised)
    → verify_manifest py cr m keys last now artifact host target ≡ raised e
    → is_poisonable e ≡ true
    → (verify_signature cr m keys ≡ ok tt)
      × (verify_window cr m now ≡ ok tt)
      × (verify_sequence m last ≡ ok tt)
unfolding verify_manifest
poisonable_is_authentic py cr m keys last now artifact host target e failed bad =
    let (signed, r1) = past_mild _ _ e (IsMild-verify_signature cr keys m) failed bad in
    let (valid, r2) = past_mild _ _ e (IsMild-verify_window cr m now) r1 bad in
    let (fresh, r3) = past_mild _ _ e (IsMild-verify_sequence m last) r2 bad in
    (signed, valid, fresh)

-- The check passes or raises a `VerificationError`, unless reading a file raised something that is
-- not an `OSError`.
abbrev pub is_verification : Raised → Bool
is_verification (verification_error m p) = true
is_verification _ = false

abbrev RaisesOnly : Bool → Outcome (Unit {0}) → Type 0
RaisesOnly clean (ok t) = Unit
RaisesOnly clean (raised e) = clean ≡ true → is_verification e ≡ true

-- Reading gave the bytes or an `OSError`.
abbrev pub read_cleanly : Option (Outcome Bytes) → Bool
read_cleanly none = true
read_cleanly (some (ok b)) = true
read_cleanly (some (raised (os_error m))) = true
read_cleanly (some (raised e)) = false

RaisesOnly-bind :
    (clean : Bool) (m k : Outcome (Unit {0}))
    → RaisesOnly clean m
    → RaisesOnly clean k
    → RaisesOnly clean (m >> k)
RaisesOnly-bind clean (ok t) k hm hk = hk
RaisesOnly-bind clean (raised e) k hm hk = hm

RaisesOnly-verify_signature :
    (clean : Bool) (cr : Crypto) (m : Fields) (keys : Dict cr.Key)
    → RaisesOnly clean (verify_signature cr m keys)
unfolding verify_signature
RaisesOnly-verify_signature clean cr m keys = ground arith

module _ (clean : Bool) (cr : Crypto) where
  RaisesOnly-check_not_before : (now : ℤ) (v : Value) → RaisesOnly clean (check_not_before cr now v)
  unfolding check_not_before
  RaisesOnly-check_not_before now v = ground arith

  RaisesOnly-check_expires : (now : ℤ) (v : Value) → RaisesOnly clean (check_expires cr now v)
  unfolding check_expires
  RaisesOnly-check_expires now v = ground arith

  RaisesOnly-verify_window : (m : Fields) (now : ℤ) → RaisesOnly clean (verify_window cr m now)
  unfolding verify_window
  RaisesOnly-verify_window m now =
      let from_ = get_field "not_before" m in
      let until = get_field "expires" m in
      RaisesOnly-bind clean (check_not_before cr now from_) (check_expires cr now until)
        (RaisesOnly-check_not_before now from_) (RaisesOnly-check_expires now until)

RaisesOnly-verify_sequence :
    (clean : Bool) (m : Fields) (last : ℤ) → RaisesOnly clean (verify_sequence m last)
unfolding verify_sequence
RaisesOnly-verify_sequence clean m last = ground arith

RaisesOnly-refuse_if :
    (clean : Bool) (test : Bool) (m : String) (p : Bool)
    → RaisesOnly clean (refuse_if test (verification_error m p))
RaisesOnly-refuse_if clean true m p = λ c. refl
RaisesOnly-refuse_if clean false m p = tt

RaisesOnly-check_target :
    (clean : Bool) (py : Python) (v : Value) (target : FlashTarget)
    → RaisesOnly clean (check_target py v target)
unfolding check_target
RaisesOnly-check_target clean py (obj d) target =
    RaisesOnly-bind clean _ _ (RaisesOnly-refuse_if clean _ _ true) (
      RaisesOnly-bind clean _ _ (offset (offset_of py (get_field "sketch_offset" d))) (
        RaisesOnly-bind clean _ _ (size (get_field "partition_size" d))
          (link (get_field "link_mode" d))))
  where
    offset : (o : Option ℤ) → RaisesOnly clean (check_offset o target.address)
    offset o = ground arith

    size : (v : Value) → RaisesOnly clean (check_size v target.max_size)
    size v = ground arith

    link : (v : Value) → RaisesOnly clean (check_link_mode v)
    link v = ground arith
RaisesOnly-check_target clean py v target = λ c. refl

RaisesOnly-verify_target_given :
    (clean : Bool) (py : Python) (m : Fields) (target : Option FlashTarget)
    → RaisesOnly clean (verify_target_given py m target)
RaisesOnly-verify_target_given clean py m none = tt
RaisesOnly-verify_target_given clean py m (some target) =
    unfold verify_target in RaisesOnly-check_target clean py (get_field "target" m) target

RaisesOnly-check_digest :
    (cr : Crypto) (m : Fields) (name : String) (file : Option (Outcome Bytes))
    → RaisesOnly (read_cleanly file) (check_digest cr m name file)
unfolding check_digest
RaisesOnly-check_digest cr m name none = tt
RaisesOnly-check_digest cr m name (some r) = ground arith

RaisesOnly-weaken :
    (c d : Bool) (m : Outcome (Unit {0})) → (d ≡ true → c ≡ true) → RaisesOnly c m → RaisesOnly d m
RaisesOnly-weaken c d (ok t) imp h = tt
RaisesOnly-weaken c d (raised e) imp h = λ p. h (imp p)

RaisesOnly-raised :
    (clean : Bool) (m : Outcome (Unit {0})) (e : Raised)
    → RaisesOnly clean m
    → m ≡ raised e
    → clean ≡ true
    → is_verification e ≡ true
RaisesOnly-raised clean (ok t) e h failed c = cc failed
RaisesOnly-raised clean (raised r) e h failed c = ground (arith, h c)

-- If reading the files gives bytes or an `OSError`, then whatever the manifest holds, the only
-- exception that `verify_manifest` raises is a `VerificationError`.
pub verify_manifest-raises :
    (py : Python) (cr : Crypto) (m : Fields) (keys : Dict cr.Key) (last now : ℤ)
    (artifact host : Option (Outcome Bytes)) (target : Option FlashTarget) (e : Raised)
    → read_cleanly artifact ≡ true
    → read_cleanly host ≡ true
    → verify_manifest py cr m keys last now artifact host target ≡ raised e
    → is_verification e ≡ true
unfolding verify_manifest
verify_manifest-raises py cr m keys last now artifact host target e ra rh failed =
    RaisesOnly-raised true _ e
      (RaisesOnly-bind true _ _ (RaisesOnly-verify_signature true cr m keys) (
        RaisesOnly-bind true _ _ (RaisesOnly-verify_window true cr m now) (
          RaisesOnly-bind true _ _ (RaisesOnly-verify_sequence true m last) (
            RaisesOnly-bind true _ _ (RaisesOnly-verify_target_given true py m target) (
              RaisesOnly-bind true _ _
                (RaisesOnly-weaken (read_cleanly artifact) true _ (λ p. ra)
                  (RaisesOnly-check_digest cr m "artifact" artifact))
                (RaisesOnly-weaken (read_cleanly host) true _ (λ p. rh)
                  (RaisesOnly-check_digest cr m "host_payload" host)))))))
      failed refl
