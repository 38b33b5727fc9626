-- ===== src/RawStrings/Sampled.antt =====
-- The reservoir of `verify` (src/raw_strings.rs) during the walk.
use zgcmaster.Prelude.{
  ℕ, ◌+◌, ◌%◌, ◌≤◌, ◌<◌, ◌⊎◌, ◌==◌, ==_iff, Bool, if◌then◌else◌, AllOf-map, ◌≡◌, min, refl, sym, ap,
  ◌∙◌, subst, true, false, ◌&&◌, List, [], ◌∷◌, length, length-append, length-set, slice, ltb,
  ltb→lt, leb, AllOf, AllOf-append, ok, ok_or, >>=-eq-ok, ok-injective, Bool-cases, inl, inr, arith,
}
use zgcmaster.RawStrings.{Bindings, header_width}
use zgcmaster.RawStrings.Population.{
  is_header, headers_below, headers_below-word, headers_below-past, IsDistinct, IsDistinct-append,
  set-AllOf, set-IsDistinct,
}
use zgcmaster.RawStrings.Random.{below}
use zgcmaster.RawStrings.Walk.{walk_header, is_wanted}
use zgcmaster.RawStrings.Verify.{Sampling, put, on_candidate}

-- A marked String header of the capture.
pub record IsCandidate (b : Bindings) (file : List ℕ) (offset : ℕ) : Type 0 where
  pub even : offset % 8 ≡ 0
  pub inside : offset + 32 ≤ length file
  pub header : is_wanted (header_width b) (b.string_klass ∷ []) (slice offset 32 file) ≡ true

-- The reservoir after `count` candidates, which are those below the offset `past`.
pub record IsSampling (b : Bindings) (file : List ℕ) (samples past count : ℕ) (s : Sampling)
    : Type 0 where
  pub population : count ≡ headers_below b file past
  pub below : AllOf (λ x. x < past) s.selected
  pub distinct : IsDistinct s.selected
  pub seen : s.seen ≡ count
  pub full : length s.selected ≡ min count samples
  pub candidates : AllOf (IsCandidate b file) s.selected

not_below : (l m : ℕ) → ltb l m ≡ false → m ≤ l
not_below l m t = ground arith

module _ (b : Bindings) (file : List ℕ) (samples : ℕ) where
  on_candidate-IsSampling :
      (offset count : ℕ) (header : List ℕ) (s s' : Sampling)
      → IsCandidate b file offset
      → IsSampling b file samples offset count s
      → on_candidate samples offset header (length file) s ≡ ok s'
      → IsSampling b file samples (offset + 8) (count + 1) s'
  unfolding on_candidate
  on_candidate-IsSampling offset count header s s' c i h =
      elim (Bool-cases (ltb (length s.selected) samples)) [
        | inl room ↦
            subst (IsSampling b file samples (offset + 8) (count + 1)) (ok-injective (rw room at h))
              (record {
                population = population;
                below = AllOf-append _ s.selected offset later (omega arith);
                distinct = IsDistinct-append s.selected offset i.below i.distinct;
                seen = ap (λ n. n + 1) i.seen;
                full = length-append s.selected (offset ∷ []) ∙ grows _ _ _ i.full room;
                candidates = AllOf-append _ s.selected offset i.candidates c;
              })
        | inr full ↦
            let (draw, drawn, made) =
              >>=-eq-ok (ok_or (below (s.seen + 1) s.rng) "a draw ends") _ (rw full at h) in
            subst (IsSampling b file samples (offset + 8) (count + 1)) (ok-injective made) (record {
              population = population;
              below = put-AllOf _ draw.0 (omega arith) later;
              distinct = put-IsDistinct draw.0;
              seen = ap (λ n. n + 1) i.seen;
              full = length-put draw.0 ∙ stays _ _ _ i.full full;
              candidates = put-AllOf _ draw.0 c i.candidates;
            })
      ]
    where
      grows : (l n m : ℕ) → l ≡ min n m → ltb l m ≡ true → l + 1 ≡ min (n + 1) m
      grows l n m e t = omega (arith, e, ltb→lt l m t)

      stays : (l n m : ℕ) → l ≡ min n m → ltb l m ≡ false → l ≡ min (n + 1) m
      stays l n m e t = omega (arith, e, not_below l m t)

      length-put : (slot : ℕ) → length (put s.selected samples slot offset) ≡ length s.selected
      length-put slot = elim (Bool-cases (ltb slot samples)) [
        | inl inside ↦ rw inside (length-set s.selected slot offset)
        | inr past ↦ rw past refl
      ]

      put-AllOf :
          (P : ℕ → Type 0) (slot : ℕ)
          → P offset
          → AllOf P s.selected
          → AllOf P (put s.selected samples slot offset)
      put-AllOf P slot p h = elim (Bool-cases (ltb slot samples)) [
        | inl inside ↦ rw inside (set-AllOf P s.selected slot offset p h)
        | inr past ↦ rw past h
      ]

      put-IsDistinct : (slot : ℕ) → IsDistinct (put s.selected samples slot offset)
      put-IsDistinct slot = elim (Bool-cases (ltb slot samples)) [
        | inl inside ↦ rw inside (set-IsDistinct s.selected slot offset i.below i.distinct)
        | inr past ↦ rw past i.distinct
      ]

      later : AllOf (λ x. x < offset + 8) s.selected
      later = AllOf-map s.selected (λ x l. omega (arith, l)) i.below

      one :
          (offset % 8 == 0) ≡ true
          → leb (offset + 32) (length file) ≡ true
          → is_wanted (header_width b) (b.string_klass ∷ []) (slice offset 32 file) ≡ true
          → (if is_header b file offset
              then headers_below b file offset + 1
              else headers_below b file offset)
            ≡ headers_below b file offset + 1
      one e f g = let h : is_header b file offset ≡ true = cc (e, f, g) in rw h refl

      population : count + 1 ≡ headers_below b file (offset + 8)
      population =
          let e : (offset % 8 == 0) ≡ true = (==_iff _ 0).1 c.even in
          let f : leb (offset + 32) (length file) ≡ true = ground (arith, c.inside) in
          ap (λ n. n + 1) i.population
          ∙ sym (headers_below-word b file offset c.even ∙ one e f c.header)

  pub walk_header-IsSampling :
      (offset : ℕ) (w w' : ℕ × Sampling)
      → IsSampling b file samples offset w.0 w.1
      → offset % 8 ≡ 0
      → offset + 32 ≤ length file
      → walk_header
          (header_width b)
          (b.string_klass ∷ [])
          (length file)
          (on_candidate samples)
          offset
          (slice offset 32 file)
          w
        ≡ ok w'
      → IsSampling b file samples (offset + 8) w'.0 w'.1
  unfolding walk_header
  walk_header-IsSampling offset (count, s) w' i even room h =
      let header : List ℕ = slice offset 32 file in
      elim (Bool-cases (is_wanted (header_width b) (b.string_klass ∷ []) header)) [
        | inr other ↦
            subst (λ (x : ℕ × Sampling). IsSampling b file samples (offset + 8) x.0 x.1)
              (ok-injective (rw other at h))
              (record {
                population =
                    i.population ∙ sym (headers_below-word b file offset even ∙ none other);
                below = AllOf-map s.selected (λ x l. omega (arith, l)) i.below;
                distinct = i.distinct;
                seen = i.seen;
                full = i.full;
                candidates = i.candidates;
              })
        | inl wanted ↦
            let (s', e, made) =
              >>=-eq-ok (on_candidate samples offset header (length file) s)
                (λ s'. ok (count + 1, s')) (rw wanted at h) in
            subst (λ (x : ℕ × Sampling). IsSampling b file samples (offset + 8) x.0 x.1)
              (ok-injective made)
              (on_candidate-IsSampling offset count header s s'
                (record { even = even; inside = room; header = wanted }) i e)
      ]
    where
      closed : (t u v : Bool) → v ≡ false → t && u && v ≡ false
      closed t u v g = ground (arith, g)

      none :
          is_wanted (header_width b) (b.string_klass ∷ []) (slice offset 32 file) ≡ false
          → (if is_header b file offset
              then headers_below b file offset + 1
              else headers_below b file offset)
            ≡ headers_below b file offset
      none g =
          let h : is_header b file offset ≡ false =
            closed (offset % 8 == 0) (leb (offset + 32) (length file))
              (is_wanted (header_width b) (b.string_klass ∷ []) (slice offset 32 file)) g in
          rw h refl

  -- Where no header starts any more, the reservoir stays as it is.
  pub weaken :
      (o o' : ℕ) (w : ℕ × Sampling)
      → o ≤ o'
      → (o ≡ o') ⊎ (length file < o + 32)
      → IsSampling b file samples o w.0 w.1
      → IsSampling b file samples o' w.0 w.1
  weaken o o' w le (inl same) i = subst (λ p. IsSampling b file samples p w.0 w.1) same i
  weaken o o' w le (inr short) i = record {
    population = i.population ∙ sym (headers_below-past b file o o' short le);
    below = AllOf-map w.1.selected (λ x l. omega (arith, l, le)) i.below;
    distinct = i.distinct;
    seen = i.seen;
    full = i.full;
    candidates = i.candidates;
  }
