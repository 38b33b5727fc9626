-- ===== src/Scan/Spaced.antt =====
-- The groups of the collector during a scan: `visit` keeps them before the offset.
use zgcmaster.Prelude.{
  ℕ, ◌+◌, ◌/◌, ◌%◌, ◌^◌, ◌≤◌, min, Bool, true, false, ◌&&◌, ◌||◌, not, length, AllOf, ltb, leb,
  ◌==◌, is_some, contains, if◌then◌else◌, ok, ◌≡◌, ap, subst, arith, Bool-cases, Option-cases, inl,
  inr, ok-injective,
}
use zgcmaster.Spacing.{Kind, wide, narrow}
use zgcmaster.Spacing.Laws.{IsCollector, observe_hit-IsCollector}
use zgcmaster.Spacing.Collector.{Collector, observe_hit}
use zgcmaster.Spacing.Recorded.{IsBelow, IsBelow-weaken, observe_hit-IsBelow}
use zgcmaster.Scan.{
  Object, Config, Bound, Header, State, plausible, lookup, array_length, object_size, within,
  is_array, accept, observe_shapes, observe_header, visit_bound, visit,
}

visit_bound-spacing :
    (c : Config) (b : Bound) (offset : ℕ) (h : Header) (t s' : State)
    → visit_bound c b offset h t ≡ ok s'
    → t.spacing ≡ s'.spacing
unfolding visit_bound
visit_bound-spacing c b offset h t s' e =
    elim (Bool-cases (ltb 0 (length c.only) && not (contains c.only b.class.name))) [
      | inl other ↦ ap (λ (s : State). s.spacing) (ok-injective (rw other at e))
      | inr selected ↦
          elim (Bool-cases
            (not (plausible h.mark) || (is_array b.class && not (is_some h.length_word)))) [
              | inl bad ↦ ap (λ (s : State). s.spacing) (ok-injective (rw (selected, bad) at e))
              | inr good ↦
                  elim (Option-cases
                    (within c.size offset (object_size b.class (array_length b.class h)))) [
                      | inl outside ↦
                          ap (λ (s : State). s.spacing)
                            (ok-injective (rw (selected, good, outside) at e))
                      | inr (n, fits) ↦ accepted _ (rw (selected, good, fits) at e)
                    ]
            ]
    ]
  where
    accepted : (o : Object) → accept c b h.mark o t ≡ ok s' → t.spacing ≡ s'.spacing
    accepted o f = unfold accept in ground arith

visit-spacing :
    (c : Config) (offset : ℕ) (h : Header) (s s' : State)
    → visit c offset h s ≡ ok s'
    → (observe_header offset h s).spacing ≡ s'.spacing
unfolding visit
visit-spacing c offset h s s' e = elim (Option-cases (lookup c.table h.klass)) [
  | inl unbound ↦ ap (λ (t : State). t.spacing) (ok-injective (rw (unbound, visit) at e))
  | inr (b, found) ↦
      visit_bound-spacing c b offset h (observe_header offset h s) s' (rw (found, visit) at e)
]

abbrev pub limits : ℕ → ℕ → Kind → ℕ
limits w n wide = w
limits w n narrow = n

limits-grow : (w n w' n' : ℕ) → w ≤ w' → n ≤ n' → (k : Kind) → limits w n k ≤ limits w' n' k
limits-grow w n w' n' h i wide = h
limits-grow w n w' n' h i narrow = i

-- A collector with its groups below the limits of their kinds.
pub record IsSpaced (f : Kind → ℕ) (c : Collector) : Type 0 where
  pub collector : IsCollector c
  pub below : AllOf (IsBelow f) c.groups

IsSpaced-weaken :
    (f f' : Kind → ℕ) (c : Collector) → ((k : Kind) → f k ≤ f' k) → IsSpaced f c → IsSpaced f' c
IsSpaced-weaken f f' c grows i = record {
  collector = i.collector;
  below = IsBelow-weaken f f' c.groups grows i.below;
}

observe_hit-IsSpaced :
    (f f' : Kind → ℕ) (c : Collector) (kind : Kind) (klass offset : ℕ) (vote : Bool)
    → ((k : Kind) → f k ≤ f' k)
    → f kind ≤ offset
    → offset + 8 ≤ f' kind
    → IsSpaced f c
    → IsSpaced f' (observe_hit c kind klass offset vote)
observe_hit-IsSpaced f f' c kind klass offset vote grows later room i = record {
  collector = observe_hit-IsCollector c kind klass offset vote i.collector;
  below = observe_hit-IsBelow f f' kind klass offset vote grows later room c i.below;
}

-- Both shapes of one header are of different kinds.
observe_shapes-IsSpaced :
    (offset full limit : ℕ) (c : Collector)
    → limit ≤ offset
    → IsSpaced (limits limit limit) c
    → IsSpaced (limits (offset + 8) (offset + 8)) (observe_shapes offset full c)
unfolding observe_shapes
observe_shapes-IsSpaced offset full limit c later i =
    narrow_shape (leb 0x1000 (full % 2 ^ 32) && ltb (full % 2 ^ 32) 0x4000_0000) _
      (wide_shape (leb (2 ^ 32) full && ltb full (2 ^ 48) && full % 8 == 0))
  where
    wide_shape :
        (b : Bool)
        → IsSpaced
            (limits (offset + 8) limit)
            (if b then observe_hit c wide full offset (leb (2 ^ 40) full) else c)
    wide_shape true =
        observe_hit-IsSpaced (limits limit limit) (limits (offset + 8) limit) c wide full offset _
          (limits-grow limit limit (offset + 8) limit (omega arith) (omega arith)) later
          (omega arith) i
    wide_shape false =
        IsSpaced-weaken (limits limit limit) (limits (offset + 8) limit) c
          (limits-grow limit limit (offset + 8) limit (omega arith) (omega arith)) i

    narrow_shape :
        (b : Bool) (t : Collector)
        → IsSpaced (limits (offset + 8) limit) t
        → IsSpaced (limits (offset + 8) (offset + 8)) (
            if b
            then observe_hit t narrow (full % 2 ^ 32) offset (ltb (full / 2 ^ 32) (2 ^ 15))
            else t)
    narrow_shape true t j =
        observe_hit-IsSpaced (limits (offset + 8) limit) (limits (offset + 8) (offset + 8)) t narrow
          (full % 2 ^ 32) offset _
          (limits-grow (offset + 8) limit (offset + 8) (offset + 8) (omega arith) (omega arith))
          later (omega arith) j
    narrow_shape false t j =
        IsSpaced-weaken (limits (offset + 8) limit) (limits (offset + 8) (offset + 8)) t
          (limits-grow (offset + 8) limit (offset + 8) (offset + 8) (omega arith) (omega arith)) j

-- The invariant of the pass over a capture of `size` bytes.
abbrev pub IsSpacedAt : ℕ → ℕ → State → Type 0
IsSpacedAt size offset s = IsSpaced (limits (min offset size) (min offset size)) s.spacing

module _ (size : ℕ) where
  pub IsSpacedAt-weaken :
      (o o' : ℕ) (s : State) → o ≤ o' → IsSpacedAt size o s → IsSpacedAt size o' s
  IsSpacedAt-weaken o o' s le i =
      IsSpaced-weaken _ _ s.spacing
        (limits-grow (min o size) (min o size) (min o' size) (min o' size) (omega arith)
          (omega arith))
        i

  pub visit-IsSpacedAt :
      (c : Config) (o : ℕ) (h : Header) (s s' : State)
      → IsSpacedAt size o s
      → o + 16 ≤ size
      → visit c o h s ≡ ok s'
      → IsSpacedAt size (o + 8) s'
  visit-IsSpacedAt c o h s s' i room e =
      subst (IsSpaced (limits (min (o + 8) size) (min (o + 8) size))) (visit-spacing c o h s s' e)
        observed
    where
      here : min (o + 8) size ≡ o + 8
      here = omega (arith, room)

      observed :
          IsSpaced (limits (min (o + 8) size) (min (o + 8) size)) (observe_header o h s).spacing
      observed =
          unfold observe_header in
          elim (Bool-cases (plausible h.mark)) [
            | inl shaped ↦
                rw (shaped, here)
                  (observe_shapes-IsSpaced o h.full (min o size) s.spacing (omega arith) i)
            | inr other ↦ rw other (IsSpacedAt-weaken o (o + 8) s (omega arith) i)
          ]
