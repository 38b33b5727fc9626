-- ===== src/Scan/Visit.antt =====
-- What one visit of `scan_with` can do: leave the objects alone, or add the one object that the
-- header announces.
use zgcmaster.Prelude.{
  ℕ, ◌+◌, ◌<◌, Bool, true, false, ◌&&◌, ◌||◌, not, some, [], ◌∷◌, ◌++◌, length, ltb, is_some,
  contains, ok, ◌≡◌, refl, ap, ◌∙◌, sym, arith, Bool-cases, Option-cases, inl, inr, ok-injective,
}
use zgcmaster.Dict.{bump}
use zgcmaster.Scan.{
  Object, Config, Bound, Header, State, Row, max_objects, plausible, lookup, array_length,
  object_size, within, is_array, accept, observe_header, visit_bound, visit,
}

abbrev pub new_object : Bound → ℕ → Header → ℕ → Object
new_object b offset h n = record {
  offset = offset;
  size = n;
  class_id = b.id;
  length = array_length b.class h;
}

-- The header announces an object of `n` bytes of the class bound by `b`.
pub record Announces (c : Config) (b : Bound) (offset : ℕ) (h : Header) (n : ℕ) : Type 0 where
  pub bound : lookup c.table h.klass ≡ some b
  pub shaped : plausible h.mark ≡ true
  pub readable : is_array b.class && not (is_some h.length_word) ≡ false
  pub fits : within c.size offset (object_size b.class (array_length b.class h)) ≡ some n

pub data Visited (c : Config) (offset : ℕ) (h : Header) (s s' : State) : Type 0 where
  passed :
      s'.objects ≡ s.objects
      → s'.class_counts ≡ s.class_counts
      → s'.rows ≡ s.rows
      → Visited c offset h s s'
  kept :
      (b : Bound) (n : ℕ)
      → Announces c b offset h n
      → c.streaming ≡ false
      → length s.objects < max_objects
      → s'.objects ≡ s.objects ++ new_object b offset h n ∷ []
      → s'.class_counts ≡ bump b.class.name s.class_counts
      → s'.rows ≡ s.rows
      → Visited c offset h s s'
  streamed :
      (b : Bound) (n : ℕ)
      → Announces c b offset h n
      → c.streaming ≡ true
      → s'.objects ≡ s.objects
      → s'.class_counts ≡ bump b.class.name s.class_counts
      → s'.rows ≡ s.rows ++ Row.object_row (new_object b offset h n) b.class h.mark ∷ []
      → Visited c offset h s s'

accept-Visited :
    (c : Config) (b : Bound) (offset : ℕ) (h : Header) (n : ℕ) (s t s' : State)
    → Announces c b offset h n
    → t.objects ≡ s.objects
    → t.class_counts ≡ s.class_counts
    → t.rows ≡ s.rows
    → accept c b h.mark (new_object b offset h n) t ≡ ok s'
    → Visited c offset h s s'
unfolding accept
accept-Visited c b offset h n s t s' a eo ec er e = elim (Bool-cases c.streaming) [
  | inl on ↦ streamed b n a on (ground arith) (ground arith) (ground arith)
  | inr off ↦ kept b n a off (ground arith) (ground arith) (ground arith) (ground arith)
]

visit_bound-Visited :
    (c : Config) (b : Bound) (offset : ℕ) (h : Header) (s t s' : State)
    → lookup c.table h.klass ≡ some b
    → t.objects ≡ s.objects
    → t.class_counts ≡ s.class_counts
    → t.rows ≡ s.rows
    → visit_bound c b offset h t ≡ ok s'
    → Visited c offset h s s'
unfolding visit_bound
visit_bound-Visited c b offset h s t s' found eo ec er e =
    elim (Bool-cases (ltb 0 (length c.only) && not (contains c.only b.class.name))) [
      | inl other ↦ same (rw other at e)
      | inr selected ↦
          elim (Bool-cases
            (not (plausible h.mark) || (is_array b.class && not (is_some h.length_word)))) [
              | inl bad ↦ rejected (rw (selected, bad) at e)
              | inr good ↦
                  elim (Option-cases
                    (within c.size offset (object_size b.class (array_length b.class h)))) [
                      | inl outside ↦ rejected (rw (selected, good, outside) at e)
                      | inr (n, fits) ↦
                          accept-Visited c b offset h n s t s'
                            (record {
                              bound = found;
                              shaped = shaped _ _ good;
                              readable = readable _ _ good;
                              fits = fits;
                            })
                            eo ec er (rw (selected, good, fits) at e)
                    ]
            ]
    ]
  where
    same : ok t ≡ ok s' → Visited c offset h s s'
    same f = passed (ground arith) (ground arith) (ground arith)

    rejected : ok (record t { rejected = t.rejected + 1 }) ≡ ok s' → Visited c offset h s s'
    rejected f = passed (ground arith) (ground arith) (ground arith)

    shaped : (p q : Bool) → not p || q ≡ false → p ≡ true
    shaped p q f = ground arith

    readable : (p q : Bool) → not p || q ≡ false → q ≡ false
    readable p q f = ground arith

pub observe_header_keeps :
    (offset : ℕ) (h : Header) (s : State)
    → ((observe_header offset h s).objects ≡ s.objects)
      × ((observe_header offset h s).class_counts ≡ s.class_counts)
      × ((observe_header offset h s).rows ≡ s.rows)
unfolding observe_header
observe_header_keeps offset h s = elim (Bool-cases (plausible h.mark)) [
  | inl e ↦ rw e (refl, refl, refl)
  | inr e ↦ rw e (refl, refl, refl)
]

-- A visit that succeeds leaves the objects, the counts and the rows alone, or the header
-- announces an object and exactly that object is added.
pub visit-Visited :
    (c : Config) (offset : ℕ) (h : Header) (s s' : State)
    → visit c offset h s ≡ ok s'
    → Visited c offset h s s'
unfolding visit
visit-Visited c offset h s s' e =
    let k = observe_header_keeps offset h s in
    elim (Option-cases (lookup c.table h.klass)) [
      | inl unbound ↦
          let f : observe_header offset h s ≡ s' = ok-injective (rw (unbound, visit) at e) in
          passed (ap (λ t. t.objects) (sym f) ∙ k.0) (ap (λ t. t.class_counts) (sym f) ∙ k.1)
            (ap (λ t. t.rows) (sym f) ∙ k.2)
      | inr (b, found) ↦
          visit_bound-Visited c b offset h s (observe_header offset h s) s' found k.0 k.1 k.2
            (rw (found, visit) at e)
    ]
