-- ===== src/Corpus/Held.antt =====
-- The texts that a snapshot of src/corpus.rs holds.
use zgcmaster.Prelude.{
  ℕ, ◌≤◌, ◌≡◌, refl, sym, ap, ◌∙◌, subst, ◌⊎◌, inl, inr, Bool, true, false, ◌&&◌, ◌||◌, not, String,
  List, ◌∷◌, ltb, ◌is◌, is_some, Result, ok, err, invalid, >>=-eq-ok, ok-injective, Bool-cases,
  Option-cases,
}
use zgcmaster.Utf16.{text_of, utf16_length}
use zgcmaster.Scan.{Object}
use zgcmaster.Reader.{Reader, class_name}
use zgcmaster.RawStrings.{Bindings, Pair, pair, decode_at}
use zgcmaster.Corpus.{Options}
use zgcmaster.Corpus.Texts.{same_text, find_text, has_text}
use zgcmaster.Corpus.Sets.{same_text-eq, has_text-insert_text, has_text-count_text}
use zgcmaster.Corpus.Snapshots.{Progress, count_as, over_limit, add_text, add_pair}

-- The object is a String whose pair is decoded, passes the filters and has the text.
pub record IsKept (options : Options) (b : Bindings) (r : Reader) (o : Object) (text : List ℕ)
    : Type 0 where
  pub string : class_name r.index o is "java.lang.String" ≡ true
  pub decoded : Pair
  pub read : decode_at b r.file r.index.heap_bytes o.offset ≡ ok (pair decoded)
  pub no_mismatch : decoded.status is "mismatch" ≡ false
  pub hashed : (options.require_hash ≡ false) ⊎ (decoded.status is "not-cached" ≡ false)
  pub lossless : (text_of decoded).lossy ≡ false
  pub long : options.min_len ≤ utf16_length text
  pub payload : text ≡ (text_of decoded).text

-- One of the objects is such.
pub data HasString (options : Options) (b : Bindings) (r : Reader) (text : List ℕ)
    : List Object → Type 0 where
  here :
      {o : Object} {os : List Object}
      → IsKept options b r o text
      → HasString options b r text (o ∷ os)
  later :
      {o : Object} {os : List Object}
      → HasString options b r text os
      → HasString options b r text (o ∷ os)

pub split_or : (x y : Bool) → x || y ≡ true → (x ≡ true) ⊎ (y ≡ true)
split_or true y h = inl refl
split_or false y h = inr h

module _ (options : Options) where
  -- A text that goes in is the only one that is new.
  has_text-add_text :
      (t : List ℕ) (offset : ℕ) (text : List ℕ) (s s' : Progress)
      → add_text options offset text s ≡ ok s'
      → has_text t s'.strings ≡ same_text t text || has_text t s.strings
  unfolding add_text
  has_text-add_text t offset text s s' h = elim (Option-cases (find_text text s.strings)) [
    | inr (entry, known) ↦
        subst (λ (x : Progress). has_text t x.strings ≡ same_text t text || has_text t s.strings)
          (ok-injective (rw (add_text, known) at h))
          (has_text-count_text t text s.strings ∙ absorbed (ap is_some known))
    | inl missing ↦ elim (Bool-cases (over_limit options text s)) [
      | inl over ↦ absurd (refused (rw (add_text, missing, over) at h))
      | inr within ↦
          subst (λ (x : Progress). has_text t x.strings ≡ same_text t text || has_text t s.strings)
            (ok-injective (rw (add_text, missing, within) at h))
            (has_text-insert_text t text _ s.strings)
    ]
  ]
    where
      refused : {m : String} → ◌≡◌ {A = Result Progress} (err (invalid m)) (ok s') → ⊥
      refused e = cc

      absorbed :
          has_text text s.strings ≡ true
          → has_text t s.strings ≡ same_text t text || has_text t s.strings
      absorbed known = elim (Bool-cases (same_text t text)) [
        | inl same ↦
            let e : has_text t s.strings ≡ true =
              ap (λ k. has_text k s.strings) (same_text-eq t text same) ∙ known in
            rw (same, e) refl
        | inr other ↦ rw other refl
      ]

  -- The filters of a pair.
  unfoldable pub passes : Pair → Bool
  passes p =
      not (p.status is "mismatch")
      && not (options.require_hash && p.status is "not-cached")
      && not (text_of p).lossy
      && not (ltb (utf16_length (text_of p).text) options.min_len)

  pub has_text-add_pair :
      (t : List ℕ) (p : Pair) (s s' : Progress)
      → add_pair options p s ≡ ok s'
      → has_text t s'.strings ≡ (passes p && same_text t (text_of p).text) || has_text t s.strings
  unfolding add_pair passes
  has_text-add_pair t p s s' h = elim (Bool-cases (p.status is "mismatch")) [
    | inl bad ↦ rw bad (kept _ (rw bad at h))
    | inr good ↦ elim (Bool-cases (options.require_hash && p.status is "not-cached")) [
      | inl bare ↦ rw (good, bare) (kept _ (rw (good, bare) at h))
      | inr hashed ↦ elim (Bool-cases (text_of p).lossy) [
        | inl lost ↦ rw (good, hashed, lost) (kept _ (rw (good, hashed, lost) at h))
        | inr whole ↦ elim (Bool-cases (ltb (utf16_length (text_of p).text) options.min_len)) [
          | inl short ↦
              rw (good, hashed, whole, short) (kept _ (rw (good, hashed, whole, short) at h))
          | inr long ↦
              let (u, added, made) =
                >>=-eq-ok (add_text options p.offset (text_of p).text s)
                  (λ u. ok (count_as p.status u)) (rw (good, hashed, whole, long) at h) in
              rw (good, hashed, whole, long)
                (ap (λ (x : Progress). has_text t x.strings) (sym (ok-injective made))
                  ∙ has_text-add_text t p.offset (text_of p).text s u added)
        ]
      ]
    ]
  ]
    where
      kept :
          (key : String)
          → ok (count_as key s) ≡ ok s'
          → has_text t s'.strings ≡ has_text t s.strings
      kept key e = ap (λ (x : Progress). has_text t x.strings) (sym (ok-injective e))
