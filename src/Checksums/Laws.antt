-- ===== src/Checksums/Laws.antt =====
-- What a table of digests that `checksums` (src/lib.rs) accepts holds.
use Prim.Native.String.{compare}
use Prim.Native.Nat.{Ordering}
use zgcmaster.Prelude.{
  ℕ, ◌≡◌, refl, ◌∙◌, subst, Bool, true, false, ◌&&◌, ◌||◌, not, String, some, List, [], ◌∷◌, map,
  length, all, ltb, leb, ◌==◌, ◌is◌, is_some, Result, ok, err, invalid, >>=-eq-ok, >>-eq-ok,
  refuse_if, ok-injective, try_fold, for_each, arith, Bool-cases, Option-cases, some_eq, ==_iff,
  inl, inr,
}
use zgcmaster.Dict.{get, insert, upsert}
use zgcmaster.Utf8.{is_utf8}
use zgcmaster.Maps.{lines_from, columns_from}
use zgcmaster.Checksums.{
  Sums, read_bounded, name_of, is_hex_digit, lower, bad_entry, add_entry, add_line, require,
  check_required, required_names, checksums,
}

-- Sixty-four hexadecimal digits in lower case.
abbrev is_lower_hex : ℕ → Bool
is_lower_hex c = (leb b'0' c && leb c b'9') || (leb b'a' c && leb c b'f')

pub record IsDigest (hash : List ℕ) : Type 0 where
  pub digits : length hash ≡ 64
  pub lower_case : all is_lower_hex hash ≡ true

abbrev AllSums : Sums → Type 0
AllSums [] = Unit
AllSums ((name, hash) ∷ sums) = IsDigest hash × AllSums sums

length-lower : (hash : List ℕ) → length (map lower hash) ≡ length hash
length-lower [] = refl
length-lower (c ∷ hash) = omega (arith, length-lower hash)

lower-digit : (c : ℕ) → is_hex_digit c ≡ true → is_lower_hex (lower c) ≡ true
lower-digit c h = ground arith

lower-all :
    (hash : List ℕ) → all is_hex_digit hash ≡ true → all is_lower_hex (map lower hash) ≡ true
lower-all [] h = refl
lower-all (c ∷ hash) h =
    let (first, rest) = both (is_hex_digit c) (all is_hex_digit hash) h in
    rw (lower-digit c first, lower-all hash rest)
  where
    both : (a b : Bool) → a && b ≡ true → (a ≡ true) × (b ≡ true)
    both a b e = ground arith

upsert-AllSums :
    (name : String) (hash : List ℕ) (sums : Sums)
    → IsDigest hash
    → AllSums sums
    → AllSums (upsert name (λ o. hash) sums)
unfolding upsert
upsert-AllSums name hash [] d h = (d, tt)
upsert-AllSums name hash ((j, v) ∷ sums) d h =
    at_place (compare name j) (upsert-AllSums name hash sums d h.1)
  where
    at_place :
        (o : Ordering)
        → AllSums (upsert name (λ p. hash) sums)
        → AllSums (elim o [
          | Ordering.lt ↦ (name, hash) ∷ (j, v) ∷ sums
          | Ordering.eq ↦ (j, hash) ∷ sums
          | Ordering.gt ↦ (j, v) ∷ upsert name (λ p. hash) sums
        ])
    at_place Ordering.lt rest = (d, h)
    at_place Ordering.eq rest = (d, h.1)
    at_place Ordering.gt rest = (h.0, rest)

get-IsDigest :
    (name : String) (sums : Sums) (hash : List ℕ)
    → AllSums sums
    → get name sums ≡ some hash
    → IsDigest hash
unfolding get
get-IsDigest name [] hash h e = cc
get-IsDigest name ((j, v) ∷ sums) hash h e = elim (Bool-cases (name is j)) [
  | inl here ↦ subst IsDigest (some_eq (rw (here, get) at e)) h.0
  | inr later ↦ get-IsDigest name sums hash h.1 (rw (later, get) at e)
]

no_sums :
    {m : String} {out : Sums} {P : Type 0} → ◌≡◌ {A = Result Sums} (err (invalid m)) (ok out) → P
no_sums e = cc

parts : (a t d b : Bool) → a || not t || not d || b ≡ false → (t ≡ true) × (d ≡ true)
parts a t d b e = ground arith

entry-IsDigest :
    (hash : List ℕ) (rest : List (List ℕ)) (name : String) (sums : Sums)
    → bad_entry hash rest name sums ≡ false
    → IsDigest (map lower hash)
entry-IsDigest hash rest name sums good =
    let (size, digits) =
      parts (ltb 0 (length rest)) (length hash == 64) (all is_hex_digit hash)
        (is_some (get name sums)) good in
    record { digits = length-lower hash ∙ (==_iff _ _).0 size; lower_case = lower-all hash digits }

add_entry-AllSums :
    (sums out : Sums) (columns : List (List ℕ))
    → AllSums sums
    → add_entry sums columns ≡ ok out
    → AllSums out
unfolding add_entry insert
add_entry-AllSums sums out [] h e = no_sums e
add_entry-AllSums sums out (hash ∷ []) h e = no_sums e
add_entry-AllSums sums out (hash ∷ column ∷ rest) h e = elim (Option-cases (name_of column)) [
  | inl unknown ↦ no_sums (rw (unknown, add_entry) at e)
  | inr (name, known) ↦ elim (Bool-cases (bad_entry hash rest name sums)) [
    | inl bad ↦ no_sums (rw (known, bad, add_entry) at e)
    | inr good ↦
        subst AllSums (ok-injective (rw (known, good, add_entry) at e))
          (upsert-AllSums name (map lower hash) sums (entry-IsDigest hash rest name sums good) h)
  ]
]

try_fold-AllSums :
    (sums out : Sums) (lines : List (List ℕ))
    → AllSums sums
    → try_fold add_line sums lines ≡ ok out
    → AllSums out
try_fold-AllSums sums out [] h e = subst AllSums (ok-injective e) h
try_fold-AllSums sums out (line ∷ lines) h e =
    let (next, added, rest) = >>=-eq-ok (add_line sums line) (λ s. try_fold add_line s lines) e in
    try_fold-AllSums next out lines (add_entry-AllSums sums next (columns_from [] line) h added)
      rest

-- The table has a digest of the name.
pub record HasDigest (sums : Sums) (name : String) : Type 0 where
  pub hash : List ℕ
  pub found : get name sums ≡ some hash
  pub digest : IsDigest hash

require-HasDigest :
    (sums : Sums) (name : String) → AllSums sums → require sums name ≡ ok tt → HasDigest sums name
require-HasDigest sums name h e = elim (Option-cases (get name sums)) [
  | inl missing ↦ absurd (refused (rw missing at e))
  | inr (hash, found) ↦ record {
    hash = hash;
    found = found;
    digest = get-IsDigest name sums hash h found;
  }
]
  where
    refused : ◌≡◌ {A = Result (Unit {0})} (err (invalid "Missing checksum")) (ok tt) → ⊥
    refused e = cc

-- A table that `checksums` accepts has for each of the four required
-- files a digest of 64 hexadecimal digits in lower case.
pub checksums-HasDigest :
    (file : List ℕ) (sums : Sums)
    → checksums file ≡ ok sums
    → HasDigest sums "heap.raw"
      × HasDigest sums "layout.json"
      × HasDigest sums "maps.txt"
      × HasDigest sums "consistency.txt"
unfolding checksums
checksums-HasDigest file sums h =
    let (bytes, read, h₁) = >>=-eq-ok (read_bounded 8192 file) _ h in
    let (text, h₂) = >>-eq-ok (refuse_if (not (is_utf8 bytes)) _) _ h₁ in
    let (out, folded, h₃) =
      >>=-eq-ok (try_fold add_line [] (lines_from [] bytes)) check_required h₂ in
    let (present, same) = >>-eq-ok (for_each (require out) required_names) (ok out) h₃ in
    let all_valid : AllSums sums =
      subst AllSums (ok-injective same) (try_fold-AllSums [] out (lines_from [] bytes) tt folded) in
    let each : for_each (require sums) required_names ≡ ok tt =
      subst (λ (s : Sums). for_each (require s) required_names ≡ ok tt) (ok-injective same)
        present in
    let (heap, r₁) = >>-eq-ok (require sums "heap.raw") _ each in
    let (layout, r₂) = >>-eq-ok (require sums "layout.json") _ r₁ in
    let (maps, r₃) = >>-eq-ok (require sums "maps.txt") _ r₂ in
    let (consistency, r₄) = >>-eq-ok (require sums "consistency.txt") _ r₃ in
    (
      require-HasDigest sums "heap.raw" all_valid heap,
      require-HasDigest sums "layout.json" all_valid layout,
      require-HasDigest sums "maps.txt" all_valid maps,
      require-HasDigest sums "consistency.txt" all_valid consistency,
    )
