-- ===== src/Digest.antt =====
-- SHA-256 of the `sha2` crate, as a parameter: a hash that is fed piece by piece. Its documented
-- behaviour is that the pieces count as one text.
use zgcmaster.Prelude.{
  Bool, true, false, String, List, [], ◌++◌, ℕ, ◌≡◌, not, Result, ok, refuse_if, refuse_if-eq-ok,
  ◌is◌, eq_iff, arith,
}

pub record Digest : Type 1 where
  pub State : Type 0
  pub start : State
  pub update : State → List ℕ → State
  pub finalize : State → String
  pub update_nil : (h : State) → update h [] ≡ h
  pub update-append : (h : State) (a b : List ℕ) → update (update h a) b ≡ update h (a ++ b)

-- `Sha256::digest`, and `hash_file` on a file's bytes.
abbrev pub hash_of : (d : Digest) → List ℕ → String
hash_of d bytes = d.finalize (d.update d.start bytes)

unfoldable pub verify_digest : String → String → Result (Unit {0})
verify_digest actual expected = refuse_if (not (actual is expected)) "Checksum mismatch"

pub verify_digest-eq-ok :
    (actual expected : String) → verify_digest actual expected ≡ ok tt → actual ≡ expected
unfolding verify_digest
verify_digest-eq-ok actual expected h =
    (eq_iff actual expected).0 (same_text _ (refuse_if-eq-ok (not (actual is expected)) _ h))
  where
    same_text : (t : Bool) → not t ≡ false → t ≡ true
    same_text t e = ground arith
