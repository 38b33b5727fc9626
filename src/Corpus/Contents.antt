-- ===== src/Corpus/Contents.antt =====
-- The texts of a whole snapshot (`snapshot` of src/corpus.rs): exactly those of its objects.
use zgcmaster.Prelude.{
  ℕ, ◌+◌, ◌≤◌, ◌≡◌, sym, ap, ◌∙◌, subst, ◌⊎◌, inl, inr, Bool, true, false, ◌&&◌, ◌||◌, not, List,
  [], ◌∷◌, ltb, ◌is◌, ok, try_fold, >>=-eq-ok, ok-injective, Bool-cases, arith,
}
use zgcmaster.Scan.{Object}
use zgcmaster.Reader.{Reader, class_name}
use zgcmaster.Utf16.{text_of, utf16_length}
use zgcmaster.RawStrings.{Bindings, Pair, Decoded, pair, rejected, decode_at}
use zgcmaster.Corpus.{Options}
use zgcmaster.Corpus.Texts.{same_text, find_text, has_text}
use zgcmaster.Corpus.Sets.{same_text-eq, same_text_refl}
use zgcmaster.Corpus.Snapshots.{Progress, no_progress, add_decoded, add_object}
use zgcmaster.Corpus.Held.{IsKept, HasString, here, later, split_or, passes, has_text-add_pair}

-- What passing the filters with a text means.
take_apart :
    (m q n l h : Bool) (min size : ℕ)
    → (not m && not (q && n) && not l && not (ltb size min)) && h ≡ true
    → (m ≡ false) × ((q ≡ false) ⊎ (n ≡ false)) × (l ≡ false) × (min ≤ size) × (h ≡ true)
take_apart m q n l h min size e =
    (ground arith, ground arith, ground arith, ground arith, ground arith)

put_together :
    (m q n l h : Bool) (min size : ℕ)
    → m ≡ false
    → (q ≡ false) ⊎ (n ≡ false)
    → l ≡ false
    → min ≤ size
    → h ≡ true
    → (not m && not (q && n) && not l && not (ltb size min)) && h ≡ true
put_together m q n l h min size a (inl b) c d e = ground (arith, a, b, c, d, e)
put_together m q n l h min size a (inr b) c d e = ground (arith, a, b, c, d, e)

or_true : (x y : Bool) → y ≡ true → x || y ≡ true
or_true x y h = ground (arith, h)

true_or : (x y : Bool) → x ≡ true → x || y ≡ true
true_or x y h = ground (arith, h)

module _ (options : Options) (b : Bindings) (r : Reader) (t : List ℕ) where
  -- What one object adds.
  abbrev Adds : Object → Progress → Progress → Type 0
  Adds o s s' =
      (has_text t s'.strings ≡ true → (has_text t s.strings ≡ true) ⊎ IsKept options b r o t)
      × ((has_text t s.strings ≡ true) ⊎ IsKept options b r o t → has_text t s'.strings ≡ true)

  passes-IsKept :
      (o : Object) (p : Pair)
      → class_name r.index o is "java.lang.String" ≡ true
      → decode_at b r.file r.index.heap_bytes o.offset ≡ ok (pair p)
      → passes options p && same_text t (text_of p).text ≡ true
      → IsKept options b r o t
  unfolding passes
  passes-IsKept o p named read new =
      let (good, bare, whole, long, same) =
        take_apart (p.status is "mismatch") options.require_hash (p.status is "not-cached")
          (text_of p).lossy (same_text t (text_of p).text) options.min_len
          (utf16_length (text_of p).text) new in
      let eq : t ≡ (text_of p).text = same_text-eq t (text_of p).text same in
      record {
        string = named;
        decoded = p;
        read = read;
        no_mismatch = good;
        hashed = bare;
        lossless = whole;
        long = subst (λ k. options.min_len ≤ utf16_length k) (sym eq) long;
        payload = eq;
      }

  IsKept-passes :
      (o : Object) (p : Pair)
      → decode_at b r.file r.index.heap_bytes o.offset ≡ ok (pair p)
      → IsKept options b r o t
      → passes options p && same_text t (text_of p).text ≡ true
  unfolding passes
  IsKept-passes o p read k =
      let same_pair : k.decoded ≡ p = cc (read, k.read) in
      subst (λ q. passes options q && same_text t (text_of q).text ≡ true) same_pair
        (put_together (k.decoded.status is "mismatch") options.require_hash
          (k.decoded.status is "not-cached") (text_of k.decoded).lossy
          (same_text t (text_of k.decoded).text) options.min_len
          (utf16_length (text_of k.decoded).text) k.no_mismatch k.hashed k.lossless
          (subst (λ x. options.min_len ≤ utf16_length x) k.payload k.long)
          (ap (same_text t) (sym k.payload) ∙ same_text_refl t))

  pair-Adds :
      (o : Object) (p : Pair) (s s' : Progress)
      → class_name r.index o is "java.lang.String" ≡ true
      → decode_at b r.file r.index.heap_bytes o.offset ≡ ok (pair p)
      → has_text t s'.strings
        ≡ (passes options p && same_text t (text_of p).text) || has_text t s.strings
      → Adds o s s'
  pair-Adds o p s s' named read e = (sound, complete)
    where
      new : Bool
      new = passes options p && same_text t (text_of p).text

      sound : has_text t s'.strings ≡ true → (has_text t s.strings ≡ true) ⊎ IsKept options b r o t
      sound h = elim (split_or new (has_text t s.strings) (sym e ∙ h)) [
        | inr old ↦ inl old
        | inl fresh ↦ inr (passes-IsKept o p named read fresh)
      ]

      complete :
          (has_text t s.strings ≡ true) ⊎ IsKept options b r o t → has_text t s'.strings ≡ true
      complete (inl old) = e ∙ or_true new (has_text t s.strings) old
      complete (inr k) = e ∙ true_or new (has_text t s.strings) (IsKept-passes o p read k)

  same-Adds :
      (o : Object) (s s' : Progress)
      → s'.strings ≡ s.strings
      → (IsKept options b r o t → ⊥)
      → Adds o s s'
  same-Adds o s s' e unkept = (λ h. inl (ap (has_text t) (sym e) ∙ h), complete)
    where
      complete :
          (has_text t s.strings ≡ true) ⊎ IsKept options b r o t → has_text t s'.strings ≡ true
      complete (inl old) = ap (has_text t) e ∙ old
      complete (inr k) = absurd (unkept k)

  add_object-Adds :
      (o : Object) (s s' : Progress) → add_object options b r s o ≡ ok s' → Adds o s s'
  unfolding add_object add_decoded
  add_object-Adds o s s' h = elim (Bool-cases (class_name r.index o is "java.lang.String")) [
    | inr other ↦
        same-Adds o s s' (ap (λ (x : Progress). x.strings) (sym (ok-injective (rw other at h))))
          (λ k. cc (k.string, other))
    | inl named ↦
        let (decoded, read, made) =
          >>=-eq-ok (decode_at b r.file r.index.heap_bytes o.offset)
            (λ decoded. add_decoded options decoded (record s { candidates = s.candidates + 1 }))
            (rw named at h) in
        of_decoded decoded read made named
  ]
    where
      of_decoded :
          (decoded : Decoded)
          → decode_at b r.file r.index.heap_bytes o.offset ≡ ok decoded
          → add_decoded options decoded (record s { candidates = s.candidates + 1 }) ≡ ok s'
          → class_name r.index o is "java.lang.String" ≡ true
          → Adds o s s'
      of_decoded (rejected reason) read made named =
          same-Adds o s s' (ap (λ (x : Progress). x.strings) (sym (ok-injective made)))
            (λ k. cc (k.read, read))
      of_decoded (pair p) read made named =
          pair-Adds o p s s' named read
            (has_text-add_pair options t p (record s { candidates = s.candidates + 1 }) s' made)

  -- The texts after the objects are those before and those of the objects.
  try_fold-texts :
      (os : List Object) (s s' : Progress)
      → try_fold (add_object options b r) s os ≡ ok s'
      → (has_text t s'.strings ≡ true → (has_text t s.strings ≡ true) ⊎ HasString options b r t os)
        × ((has_text t s.strings ≡ true) ⊎ HasString options b r t os
            → has_text t s'.strings ≡ true)
  try_fold-texts [] s s' h = (λ held. inl (ap (has_text t) e ∙ held), complete)
    where
      e : s.strings ≡ s'.strings
      e = ap (λ (x : Progress). x.strings) (ok-injective h)

      complete :
          (has_text t s.strings ≡ true) ⊎ HasString options b r t [] → has_text t s'.strings ≡ true
      complete (inl old) = ap (has_text t) (sym e) ∙ old
      complete (inr found) = elim found [ ]
  try_fold-texts (o ∷ os) s s' h =
      let (u, first, rest) = >>=-eq-ok (add_object options b r s o) _ h in
      let (sound, complete) = add_object-Adds o s u first in
      let (sound', complete') = try_fold-texts os u s' rest in
      (
        λ held. elim (sound' held) [
          | inr found ↦ inr (later found)
          | inl old ↦ elim (sound old) [ inl older ↦ inl older | inr kept ↦ inr (here kept) ]
        ],
        both u complete complete',
      )
    where
      both :
          (u : Progress)
          → ((has_text t s.strings ≡ true) ⊎ IsKept options b r o t → has_text t u.strings ≡ true)
          → ((has_text t u.strings ≡ true) ⊎ HasString options b r t os
              → has_text t s'.strings ≡ true)
          → (has_text t s.strings ≡ true) ⊎ HasString options b r t (o ∷ os)
          → has_text t s'.strings ≡ true
      both u c d (inl old) = d (inl (c (inl old)))
      both u c d (inr (here kept)) = d (inl (c (inr kept)))
      both u c d (inr (later found)) = d (inr found)

-- A snapshot holds exactly the texts of the Strings that pass.
pub AreTexts : Options → Bindings → Reader → Progress → Type 0
AreTexts options b r s =
    (t : List ℕ)
    → (has_text t s.strings ≡ true → HasString options b r t r.index.objects)
      × (HasString options b r t r.index.objects → has_text t s.strings ≡ true)

pub snapshot-AreTexts :
    (options : Options) (b : Bindings) (r : Reader) (s : Progress)
    → try_fold (add_object options b r) no_progress r.index.objects ≡ ok s
    → AreTexts options b r s
unfolding AreTexts find_text
snapshot-AreTexts options b r s h t =
    let (sound, complete) = try_fold-texts options b r t r.index.objects no_progress s h in
    (
      λ held. elim (sound held) [ inl nothing ↦ absurd (empty nothing) | inr found ↦ found ],
      λ found. complete (inr found),
    )
  where
    empty : has_text t [] ≡ true → ⊥
    empty e = cc
