-- ===== src/RawStrings/Reported.antt =====
-- What a completed run of `strings_with_pack` (src/raw_strings.rs) has reported.
use zgcmaster.Prelude.{
  ℕ, ◌+◌, ◌*◌, ◌/◌, ◌≤◌, ◌≡◌, refl, sym, ap, subst, Bool, false, ◌&&◌, String, List, [], ◌∷◌,
  length, slice, length-append, ltb, AllOf, AllOf-append, ◌is◌, ok, ◌>>◌, >>=-eq-ok, >>-eq-ok,
  ok-injective, arith, Bool-cases, inl, inr,
}
use zgcmaster.Dict.{bump, total}
use zgcmaster.Dict.Laws.{total-bump}
use zgcmaster.Digest.{Digest, hash_of}
use zgcmaster.RawStrings.{
  Bindings, Pair, Decoded, pair, rejected, units_of, decode_header, header_width,
}
use zgcmaster.RawStrings.Sound.{IsDecoded, decode_header-IsDecoded}
use zgcmaster.RawStrings.Walk.{
  Walked, walk_header, take_header, is_wanted, walk_klass, walk_klass-eq-ok, recheck, recheck-eq-ok,
}
use zgcmaster.Walk.SinglePass.{single_pass_inv}
use zgcmaster.RawStrings.Report.{
  Progress, StringReport, count_as, emit, report_pair, report_decoded, on_header, no_progress,
  strings_with_pack,
}

-- A row that the command may emit: what the bytes hold, and past every filter.
pub record IsEmitted (b : Bindings) (file : List ℕ) (min_len : ℕ) (require_hash : Bool) (p : Pair)
    : Type 0 where
  pub decoded : IsDecoded b file (length file) p.offset (slice p.offset 32 file) p
  pub no_mismatch : p.status is "mismatch" ≡ false
  pub hashed : require_hash && p.status is "not-cached" ≡ false
  pub long_enough : min_len ≤ units_of p

-- What the rows and the counts say after `count` headers.
pub record IsProgress (b : Bindings) (file : List ℕ) (min_len : ℕ) (require_hash : Bool) (count : ℕ)
    (s : Progress) : Type 0 where
  pub rows : AllOf (IsEmitted b file min_len require_hash) s.rows
  pub listed : length s.rows ≡ s.emitted
  pub few : s.emitted ≤ count
  pub accounted : count ≤ total s.counts
  pub twice : total s.counts + s.emitted ≤ 2 * count

module _ (b : Bindings) (file : List ℕ) (min_len : ℕ) (require_hash : Bool) where
  skipped-IsProgress :
      (count : ℕ) (key first : String) (s : Progress)
      → IsProgress b file min_len require_hash count s
      → IsProgress b file min_len require_hash (count + 1) (count_as key (count_as first s))
  skipped-IsProgress count key first s i =
      let t = total-bump key (bump first s.counts) in
      let u = total-bump first s.counts in
      record {
        rows = i.rows;
        listed = i.listed;
        few = omega (arith, i.few);
        accounted = omega (arith, i.accounted, t, u);
        twice = omega (arith, i.twice, t, u);
      }

  rejected-IsProgress :
      (count : ℕ) (reason : String) (s : Progress)
      → IsProgress b file min_len require_hash count s
      → IsProgress b file min_len require_hash (count + 1) (count_as reason s)
  rejected-IsProgress count reason s i =
      let t = total-bump reason s.counts in
      record {
        rows = i.rows;
        listed = i.listed;
        few = omega (arith, i.few);
        accounted = omega (arith, i.accounted, t);
        twice = omega (arith, i.twice, t);
      }

  emitted-IsProgress :
      (count : ℕ) (p : Pair) (s : Progress)
      → IsEmitted b file min_len require_hash p
      → IsProgress b file min_len require_hash count s
      → IsProgress b file min_len require_hash (count + 1) (emit p (count_as p.status s))
  emitted-IsProgress count p s e i =
      let t = total-bump p.status s.counts in
      record {
        rows = AllOf-append _ s.rows p i.rows e;
        listed = omega (arith, length-append s.rows (p ∷ []), i.listed);
        few = omega (arith, i.few);
        accounted = omega (arith, i.accounted, t);
        twice = omega (arith, i.twice, t);
      }

  report_pair-IsProgress :
      (count : ℕ) (p : Pair) (s : Progress)
      → IsDecoded b file (length file) p.offset (slice p.offset 32 file) p
      → IsProgress b file min_len require_hash count s
      → IsProgress b file min_len require_hash
          (count + 1)
          (report_pair min_len require_hash p (count_as p.status s))
  unfolding report_pair
  report_pair-IsProgress count p s d i = elim (Bool-cases (p.status is "mismatch")) [
    | inl differs ↦ rw differs (skipped-IsProgress count _ p.status s i)
    | inr agrees ↦ rw agrees (elim (Bool-cases (require_hash && p.status is "not-cached")) [
      | inl unhashed ↦ rw unhashed (skipped-IsProgress count _ p.status s i)
      | inr hashed ↦ rw hashed (elim (Bool-cases (ltb (units_of p) min_len)) [
        | inl short ↦ rw short (skipped-IsProgress count _ p.status s i)
        | inr long ↦ rw long (
            emitted-IsProgress count p s
              (record {
                decoded = d;
                no_mismatch = agrees;
                hashed = hashed;
                long_enough = ground arith;
              })
              i)
      ])
    ])
  ]

  on_header-IsProgress :
      (offset count : ℕ) (s s' : Progress)
      → IsProgress b file min_len require_hash count s
      → on_header b file min_len require_hash offset (slice offset 32 file) (length file) s ≡ ok s'
      → IsProgress b file min_len require_hash (count + 1) s'
  unfolding on_header report_decoded
  on_header-IsProgress offset count s s' i h =
      let (decoded, e, made) =
        >>=-eq-ok (decode_header b file (length file) offset (slice offset 32 file))
          (λ x. ok (report_decoded min_len require_hash x s)) h in
      subst (IsProgress b file min_len require_hash (count + 1)) (ok-injective made)
        (of_decoded decoded e)
    where
      of_decoded :
          (x : Decoded)
          → decode_header b file (length file) offset (slice offset 32 file) ≡ ok x
          → IsProgress b file min_len require_hash
              (count + 1)
              (report_decoded min_len require_hash x s)
      of_decoded (rejected reason) e = rejected-IsProgress count reason s i
      of_decoded (pair p) e =
          let d =
            decode_header-IsDecoded b file (length file) offset (slice offset 32 file) p refl e in
          report_pair-IsProgress count p s
            (subst (λ k. IsDecoded b file (length file) k (slice k 32 file) p) (sym d.at_offset) d)
            i

  abbrev bound_klass : List ℕ
  bound_klass = b.string_klass ∷ []

  walk_header-IsProgress :
      (offset : ℕ) (w w' : ℕ × Progress)
      → IsProgress b file min_len require_hash w.0 w.1
      → walk_header
          (header_width b)
          bound_klass
          (length file)
          (on_header b file min_len require_hash)
          offset
          (slice offset 32 file)
          w
        ≡ ok w'
      → IsProgress b file min_len require_hash w'.0 w'.1
  unfolding walk_header
  walk_header-IsProgress offset (count, s) w' i h =
      elim (Bool-cases (is_wanted (header_width b) bound_klass (slice offset 32 file))) [
        | inr other ↦
            subst (λ (x : ℕ × Progress). IsProgress b file min_len require_hash x.0 x.1)
              (ok-injective (rw other at h)) i
        | inl wanted ↦
            let (s', e, made) =
              >>=-eq-ok
                (on_header b file min_len require_hash offset (slice offset 32 file) (length file)
                  s)
                (λ s'. ok (count + 1, s')) (rw wanted at h) in
            subst (λ (x : ℕ × Progress). IsProgress b file min_len require_hash x.0 x.1)
              (ok-injective made) (on_header-IsProgress offset count s s' i e)
      ]

-- Every row of a report that the command completes is a pair that the bytes of the capture hold and
-- that passes the filters asked for; the number of rows is the number emitted, at most the number of
-- candidate headers; every candidate is counted under at least one key and with its emission at
-- most twice; and the report names the hash and the size of the capture.
pub strings_with_pack-IsProgress :
    (d : Digest) (file later : List ℕ) (b : Bindings) (min_len : ℕ) (require_hash : Bool)
    (r : StringReport)
    → strings_with_pack d file later b min_len require_hash ≡ ok r
    → IsProgress b file min_len require_hash r.header_candidates
        (record { counts = r.counts; emitted = r.emitted; rows = r.rows })
      × (r.hash ≡ hash_of d file)
      × (r.bytes ≡ length file)
      × (hash_of d later ≡ r.hash)
unfolding strings_with_pack
strings_with_pack-IsProgress d file later b min_len require_hash r h =
    let visit = on_header b file min_len require_hash in
    let klasses : List ℕ = b.string_klass ∷ [] in
    let (w, walked, h₁) =
      >>=-eq-ok (walk_klass d (header_width b) klasses 32 visit file no_progress)
        (λ w.
          recheck d later w.size w.hash
          >> ok (record {
            hash = w.hash;
            bytes = w.size;
            header_candidates = w.count;
            emitted = w.state.emitted;
            counts = w.state.counts;
            rows = w.state.rows;
          }))
        h in
    let (same, made) = >>-eq-ok (recheck d later w.size w.hash) _ h₁ in
    let (p, pass, finished) =
      walk_klass-eq-ok d (header_width b) klasses 32 visit file no_progress w walked in
    let i : IsProgress b file min_len require_hash p.0 p.1 =
      single_pass_inv 32 (take_header 32) (walk_header (header_width b) klasses (length file) visit)
        file (length file) (λ o x. IsProgress b file min_len require_hash x.0 x.1)
        (λ o o' x le why j. j)
        (λ o x x' j even room e. walk_header-IsProgress b file min_len require_hash o x x' j e)
        ((length file + 7) / 8) 0 (0, no_progress) p refl start pass in
    let e = ok-injective finished in
    let again = recheck-eq-ok d later w.size w.hash same in
    subst
      (λ (x : StringReport).
        IsProgress b file min_len require_hash x.header_candidates
          (record { counts = x.counts; emitted = x.emitted; rows = x.rows })
        × (x.hash ≡ hash_of d file)
        × (x.bytes ≡ length file)
        × (hash_of d later ≡ x.hash))
      (ok-injective made)
      (
        subst (λ (x : Walked Progress). IsProgress b file min_len require_hash x.count x.state) e i,
        ap (λ (x : Walked Progress). x.hash) (sym e),
        ap (λ (x : Walked Progress). x.size) (sym e),
        again,
      )
  where
    start : IsProgress b file min_len require_hash 0 no_progress
    start =
        unfold total in
        record {
          rows = tt;
          listed = refl;
          few = omega arith;
          accounted = omega arith;
          twice = omega arith;
        }
