-- ===== src/Corpus/Bounded.antt =====
-- The snapshots of src/corpus.rs keep within their bounds, and count every candidate once.
use zgcmaster.Prelude.{
  ℕ, suc, ◌+◌, ◌≤◌, ◌≡◌, refl, sym, ap, ◌∙◌, subst, Bool, true, false, ◌&&◌, ◌||◌, String, List, [],
  ◌∷◌, length, ltb, ◌==◌, ◌is◌, is_some, if◌then◌else◌, Result, ok, err, invalid, try_fold,
  >>=-eq-ok, ok-injective, Bool-cases, Option-cases, inl, inr, arith,
}
use zgcmaster.Dict.{total}
use zgcmaster.Dict.Laws.{total-bump}
use zgcmaster.Utf8.{utf8_length}
use zgcmaster.Utf16.{text_of, utf16_length}
use zgcmaster.Scan.{Object, Index}
use zgcmaster.Reader.{Reader, class_name}
use zgcmaster.RawStrings.{Bindings, Pair, Decoded, pair, rejected, decode_at}
use zgcmaster.Corpus.{Options}
use zgcmaster.Corpus.Texts.{
  Entry, Strings, same_text, text_before, find_text, insert_text, count_text, has_text,
}
use zgcmaster.Corpus.Sets.{AreDistinct, insert_text-AreDistinct, count_text-AreDistinct}
use zgcmaster.Corpus.Snapshots.{
  Progress, no_progress, count_as, over_limit, add_text, add_pair, add_decoded, add_object,
}

-- The bytes of the texts, and how often they were found.
unfoldable pub text_total : Strings → ℕ
text_total [] = 0
text_total ((key, e) ∷ m) = utf8_length key + text_total m

unfoldable pub occurrences : Strings → ℕ
occurrences [] = 0
occurrences ((key, e) ∷ m) = e.count + occurrences m

-- The measures of a map with a text added.
insert_text_lem :
    (t : List ℕ) (e : Entry) (m : Strings)
    → (length (insert_text t e m) ≡ length m + 1)
      × (text_total (insert_text t e m) ≡ text_total m + utf8_length t)
      × (occurrences (insert_text t e m) ≡ occurrences m + e.count)
unfolding insert_text text_total occurrences
insert_text_lem t e [] = (refl, omega arith, omega arith)
insert_text_lem t e ((key, old) ∷ m) =
    let (len, bytes, found) = insert_text_lem t e m in
    elim (Bool-cases (text_before t key)) [
      | inl before ↦ rw before (omega arith, omega arith, omega arith)
      | inr after ↦ rw after (omega (arith, len), omega (arith, bytes), omega (arith, found))
    ]

-- The measures of a map with a text counted once more.
count_text_lem :
    (t : List ℕ) (m : Strings)
    → has_text t m ≡ true
    → (length (count_text t m) ≡ length m)
      × (text_total (count_text t m) ≡ text_total m)
      × (occurrences (count_text t m) ≡ occurrences m + 1)
unfolding count_text find_text text_total occurrences
count_text_lem t [] h = cc
count_text_lem t ((key, e) ∷ m) h = elim (Bool-cases (same_text t key)) [
  | inl same ↦ rw same (refl, refl, omega arith)
  | inr other ↦
      let (len, bytes, found) = count_text_lem t m (rw other at h) in
      rw other (ap suc len, ap (λ n. utf8_length key + n) bytes, omega (arith, found))
]

-- What a snapshot holds after `n` Strings of the index.
pub record IsBounded (options : Options) (n : ℕ) (s : Progress) : Type 0 where
  pub distinct : AreDistinct s.strings
  pub few : length s.strings ≤ options.max_unique
  pub sized : s.text_bytes ≡ text_total s.strings
  pub small : s.text_bytes ≤ options.max_text_bytes
  pub candidates : s.candidates ≡ n
  pub counted : total s.counts ≡ n
  pub found : occurrences s.strings ≤ n

module _ (options : Options) (n : ℕ) where
  -- The step of a candidate: its count comes last.
  abbrev Goes : Result Progress → Type 0
  Goes r = (s' : Progress) → r ≡ ok s' → IsBounded options (n + 1) s'

  -- What a candidate leaves before it is counted under a key.
  record IsUncounted (s : Progress) : Type 0 where
    distinct : AreDistinct s.strings
    few : length s.strings ≤ options.max_unique
    sized : s.text_bytes ≡ text_total s.strings
    small : s.text_bytes ≤ options.max_text_bytes
    candidates : s.candidates ≡ n + 1
    counted : total s.counts ≡ n
    found : occurrences s.strings ≤ n + 1

  count_as-IsBounded :
      (key : String) (s : Progress) → IsUncounted s → IsBounded options (n + 1) (count_as key s)
  count_as-IsBounded key s i = record {
    distinct = i.distinct;
    few = i.few;
    sized = i.sized;
    small = i.small;
    candidates = i.candidates;
    counted = omega (arith, total-bump key s.counts, i.counted);
    found = i.found;
  }

  count_as-Goes : (key : String) (s : Progress) → IsUncounted s → Goes (ok (count_as key s))
  count_as-Goes key s i s' h =
      subst (IsBounded options (n + 1)) (ok-injective h) (count_as-IsBounded key s i)

  if-Goes :
      (test : Bool) (key : String) (s : Progress) (rest : Result Progress)
      → IsUncounted s
      → Goes rest
      → Goes (if test then ok (count_as key s) else rest)
  if-Goes true key s rest i h = count_as-Goes key s i
  if-Goes false key s rest i h = h

  -- A text is added or counted once more, within the bounds.
  add_text-IsUncounted :
      (offset : ℕ) (text : List ℕ) (s s' : Progress)
      → IsUncounted s
      → occurrences s.strings ≤ n
      → add_text options offset text s ≡ ok s'
      → IsUncounted s'
  unfolding add_text
  add_text-IsUncounted offset text s s' i few h = elim (Option-cases (find_text text s.strings)) [
    | inr (entry, known) ↦
        let present : has_text text s.strings ≡ true = ap is_some known in
        let (len, bytes, found) = count_text_lem text s.strings present in
        subst IsUncounted (ok-injective (rw (add_text, known) at h)) (record {
          distinct = count_text-AreDistinct text s.strings i.distinct;
          few = omega (arith, len, i.few);
          sized = i.sized ∙ sym bytes;
          small = i.small;
          candidates = i.candidates;
          counted = i.counted;
          found = omega (arith, found, few);
        })
    | inl missing ↦ elim (Bool-cases (over_limit options text s)) [
      | inl over ↦ absurd (refused (rw (add_text, missing, over) at h))
      | inr within ↦
          let e : Entry = record { first_offset = offset; count = 1 } in
          let (len, bytes, found) = insert_text_lem text e s.strings in
          let (room, fits) = within_lem (length s.strings) options.max_unique _ _ within in
          subst IsUncounted (ok-injective (rw (add_text, missing, within) at h)) (record {
            distinct = insert_text-AreDistinct text e s.strings (ap is_some missing) i.distinct;
            few = omega (arith, len, room i.few);
            sized = omega (arith, bytes, i.sized);
            small = fits;
            candidates = i.candidates;
            counted = i.counted;
            found = omega (arith, found, few);
          })
    ]
  ]
    where
      refused : {m : String} → ◌≡◌ {A = Result Progress} (err (invalid m)) (ok s') → ⊥
      refused e = cc

      within_lem : (a b c d : ℕ) → a == b || ltb c d ≡ false → (a ≤ b → a + 1 ≤ b) × (d ≤ c)
      within_lem a b c d e = (λ le. ground arith, ground arith)

  add_pair-Goes :
      (p : Pair) (s : Progress)
      → IsUncounted s
      → occurrences s.strings ≤ n
      → Goes (add_pair options p s)
  unfolding add_pair
  add_pair-Goes p s i few = if-Goes (p.status is "mismatch") "hash-mismatch" s _ i (
      if-Goes (options.require_hash && p.status is "not-cached") "skipped-unhashed" s _ i (
        if-Goes (text_of p).lossy "skipped-lossy-text" s _ i (
          if-Goes (ltb (utf16_length (text_of p).text) options.min_len) "skipped-short" s _ i
            λ s' h.
              let (t, added, made) =
                >>=-eq-ok (add_text options p.offset (text_of p).text s)
                  (λ t. ok (count_as p.status t)) h in
              count_as-Goes p.status t
                (add_text-IsUncounted p.offset (text_of p).text s t i few added) s' made)))

  add_decoded-Goes :
      (decoded : Decoded) (s : Progress)
      → IsUncounted s
      → occurrences s.strings ≤ n
      → Goes (add_decoded options decoded s)
  unfolding add_decoded
  add_decoded-Goes (rejected reason) s i few = count_as-Goes reason s i
  add_decoded-Goes (pair p) s i few = add_pair-Goes p s i few

  add_object-Goes :
      (b : Bindings) (r : Reader) (s : Progress) (o : Object)
      → IsBounded options n s
      → class_name r.index o is "java.lang.String" ≡ true
      → Goes (add_object options b r s o)
  unfolding add_object
  add_object-Goes b r s o i named s' h =
      let (decoded, read, made) =
        >>=-eq-ok (decode_at b r.file r.index.heap_bytes o.offset)
          (λ decoded. add_decoded options decoded (record s { candidates = s.candidates + 1 }))
          (rw named at h) in
      add_decoded-Goes decoded (record s { candidates = s.candidates + 1 })
        (record {
          distinct = i.distinct;
          few = i.few;
          sized = i.sized;
          small = i.small;
          candidates = ap (λ k. k + 1) i.candidates;
          counted = i.counted;
          found = omega (arith, i.found);
        })
        i.found s' made

-- The Strings among some objects of an index.
unfoldable pub strings_of : Index → List Object → ℕ
unfolding class_name
strings_of index [] = 0
strings_of index (o ∷ os) =
    (if class_name index o is "java.lang.String" then 1 else 0) + strings_of index os

try_fold-IsBounded :
    (options : Options) (b : Bindings) (r : Reader) (os : List Object) (n : ℕ) (s s' : Progress)
    → IsBounded options n s
    → try_fold (add_object options b r) s os ≡ ok s'
    → IsBounded options (n + strings_of r.index os) s'
unfolding add_object strings_of
try_fold-IsBounded options b r [] n s s' i h =
    let e : n + 0 ≡ n = omega arith in rw e (subst (IsBounded options n) (ok-injective h) i)
try_fold-IsBounded options b r (o ∷ os) n s s' i h =
    let (t, here, rest) = >>=-eq-ok (add_object options b r s o) _ h in
    elim (Bool-cases (class_name r.index o is "java.lang.String")) [
      | inl named ↦
          let e : n + (1 + strings_of r.index os) ≡ n + 1 + strings_of r.index os = omega arith in
          rw (named, e)
            (try_fold-IsBounded options b r os (n + 1) t s'
              (add_object-Goes options n b r s o i named t here) rest)
      | inr other ↦
          let e : 0 + strings_of r.index os ≡ strings_of r.index os = omega arith in
          rw (other, e)
            (try_fold-IsBounded options b r os n t s'
              (subst (IsBounded options n) (ok-injective (rw other at here)) i) rest)
    ]

-- The texts that a loop over an index collects are distinct and within the bounds on their number
-- and their bytes; every String of the index is a candidate, and is counted under exactly one key;
-- and no more texts are found than there are candidates.
pub snapshot-IsBounded :
    (options : Options) (b : Bindings) (r : Reader) (s : Progress)
    → try_fold (add_object options b r) no_progress r.index.objects ≡ ok s
    → IsBounded options (strings_of r.index r.index.objects) s
unfolding occurrences total text_total
snapshot-IsBounded options b r s h =
    let e : 0 + strings_of r.index r.index.objects ≡ strings_of r.index r.index.objects =
      omega arith in
    rw e at (try_fold-IsBounded options b r r.index.objects 0 no_progress s start h)
  where
    start : IsBounded options 0 no_progress
    start = record {
      distinct = tt;
      few = omega arith;
      sized = refl;
      small = omega arith;
      candidates = refl;
      counted = refl;
      found = omega arith;
    }
