-- ===== src/Dictionaries/Klasses.antt =====
-- The identities that `dictionaries` (src/dictionaries.rs) looks for: sorted, each once, in range.
use zgcmaster.Prelude.{
  ℕ, ◌^◌, ◌%◌, ◌≤◌, ◌<◌, ◌≡◌, Bool, true, false, ◌||◌, List, [], ◌∷◌, length, any, ltb, ◌==◌, AllOf,
  arith,
}
use zgcmaster.Sets.Laws.{IsAscending, has}
use zgcmaster.Dictionaries.{bad_klass, bad_klasses}

-- An identity that a header of the given width can hold.
pub record IsIdentity (narrow : Bool) (k : ℕ) : Type 0 where
  pub positive : 0 < k
  pub fits : narrow ≡ true → k < 2 ^ 32
  pub aligned : narrow ≡ false → k % 8 ≡ 0

bad_klass-IsIdentity : (narrow : Bool) (k : ℕ) → bad_klass narrow k ≡ false → IsIdentity narrow k
bad_klass-IsIdentity narrow k h = record {
  positive = ground arith;
  fits = λ on. ground arith;
  aligned = λ off. ground arith;
}

good_klasses-AllOf :
    (narrow : Bool) (ks : List ℕ) → any (bad_klass narrow) ks ≡ false → AllOf (IsIdentity narrow) ks
good_klasses-AllOf narrow [] h = tt
good_klasses-AllOf narrow (k ∷ ks) h = (
  bad_klass-IsIdentity narrow k (left (bad_klass narrow k) _ h),
  good_klasses-AllOf narrow ks (right (bad_klass narrow k) _ h),
)
  where
    left : (a b : Bool) → a || b ≡ false → a ≡ false
    left a b e = ground arith

    right : (a b : Bool) → a || b ≡ false → b ≡ false
    right a b e = ground arith

-- Between 1 and 64 identities, each of which a header can hold.
pub record AreIdentities (narrow : Bool) (ks : List ℕ) : Type 0 where
  pub some_given : 1 ≤ length ks
  pub few : length ks ≤ 64
  pub each : AllOf (IsIdentity narrow) ks

pub bad_klasses-AreIdentities :
    (narrow : Bool) (ks : List ℕ) → bad_klasses narrow ks ≡ false → AreIdentities narrow ks
unfolding bad_klasses
bad_klasses-AreIdentities narrow ks h =
    let (one, few, good) =
      parts (length ks == 0) (ltb 64 (length ks)) (any (bad_klass narrow) ks) h in
    record {
      some_given = ground arith;
      few = ground (arith, few);
      each = good_klasses-AllOf narrow ks good;
    }
  where
    parts : (a b c : Bool) → a || b || c ≡ false → (a ≡ false) × (b ≡ false) × (c ≡ false)
    parts a b c e = ground arith

-- The identities that a report is for, of those asked for.
pub record AreAsked (narrow : Bool) (asked ks : List ℕ) : Type 0 where
  pub valid : AreIdentities narrow ks
  pub ascending : IsAscending 0 ks
  pub same : (k : ℕ) → has k ks ≡ has k asked
