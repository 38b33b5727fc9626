-- ===== src/Dict/Order.antt =====
-- The order of the keys of a map: the maps that `insert` and `entry` make are sorted, so that no two
-- entries have one key.
use Prim.Native.Char.{Char, code}
use Prim.Native.Nat.{Ordering, compare as compare_ℕ}
use Prim.Native.String.{compare, then}
use Prim.Native.String.compare as order
use text.Mathlib.Text.{is_eq}
use text.Mathlib.TextEquality.{path_by_compare}
use zgcmaster.Prelude.{
  ◌<◌, ◌≡◌, refl, sym, ap, ◌∙◌, subst, ◌⊎◌, inl, inr, arith, String, Option, none, some, [], ◌∷◌,
  AllOf, AllOf-map, true, false, ◌is◌, Bool-cases, eq_iff,
}
use zgcmaster.Dict.{Dict, get, upsert}

-- What decides the order of two texts that begin with a character.
cons-lt :
    (c d : Char) (s t : String)
    → compare (String.◌∷◌ c s) (String.◌∷◌ d t) ≡ Ordering.lt
    → (code c < code d) ⊎ ((code c ≡ code d) × (compare s t ≡ Ordering.lt))
cons-lt c d s t h = decide (compare_ℕ (code c) (code d)) refl (sym (order.cons-cons c d s t) ∙ h)
  where
    decide :
        (o : Ordering)
        → compare_ℕ (code c) (code d) ≡ o
        → then o (compare s t) ≡ Ordering.lt
        → (code c < code d) ⊎ ((code c ≡ code d) × (compare s t ≡ Ordering.lt))
    decide Ordering.lt placed e = inl (ground arith)
    decide Ordering.eq placed e = inr (ground arith, e)
    decide Ordering.gt placed e = cc

lt-cons_first :
    (c d : Char) (s t : String)
    → code c < code d
    → compare (String.◌∷◌ c s) (String.◌∷◌ d t) ≡ Ordering.lt
lt-cons_first c d s t h =
    let e : compare_ℕ (code c) (code d) ≡ Ordering.lt = ground arith in
    order.cons-cons c d s t ∙ ap (λ o. then o (compare s t)) e

lt-cons_rest :
    (c d : Char) (s t : String)
    → code c ≡ code d
    → compare s t ≡ Ordering.lt
    → compare (String.◌∷◌ c s) (String.◌∷◌ d t) ≡ Ordering.lt
lt-cons_rest c d s t h k =
    let e : compare_ℕ (code c) (code d) ≡ Ordering.eq = ground arith in
    order.cons-cons c d s t ∙ ap (λ o. then o (compare s t)) e ∙ k

pub compare_trans :
    (s t u : String)
    → compare s t ≡ Ordering.lt
    → compare t u ≡ Ordering.lt
    → compare s u ≡ Ordering.lt
compare_trans s String.[] String.[] h k = h
compare_trans String.[] String.[] (String.◌∷◌ e u) h k = order.nil-cons e u
compare_trans (String.◌∷◌ c s) String.[] (String.◌∷◌ e u) h k =
    let f = sym (order.cons-nil c s) ∙ h in cc
compare_trans String.[] (String.◌∷◌ d t) (String.◌∷◌ e u) h k = order.nil-cons e u
compare_trans s (String.◌∷◌ d t) String.[] h k = let f = sym (order.cons-nil d t) ∙ k in cc
compare_trans (String.◌∷◌ c s) (String.◌∷◌ d t) (String.◌∷◌ e u) h k = elim (cons-lt c d s t h) [
  | inl less ↦ elim (cons-lt d e t u k) [
    | inl more ↦ lt-cons_first c e s u (omega arith)
    | inr (same, rest) ↦ lt-cons_first c e s u (omega (arith, same, less))
  ]
  | inr (same, rest) ↦ elim (cons-lt d e t u k) [
    | inl more ↦ lt-cons_first c e s u (omega (arith, same, more))
    | inr (same', rest') ↦ lt-cons_rest c e s u (same ∙ same') (compare_trans s t u rest rest')
  ]
]

compare_swap : (s t : String) → compare s t ≡ Ordering.gt → compare t s ≡ Ordering.lt
compare_swap String.[] String.[] h = cc (order.nil-nil, h)
compare_swap String.[] (String.◌∷◌ d t) h = let f = sym (order.nil-cons d t) ∙ h in cc
compare_swap (String.◌∷◌ c s) String.[] h = order.nil-cons c s
compare_swap (String.◌∷◌ c s) (String.◌∷◌ d t) h =
    decide (compare_ℕ (code c) (code d)) refl (sym (order.cons-cons c d s t) ∙ h) (compare_swap s t)
  where
    decide :
        (o : Ordering)
        → compare_ℕ (code c) (code d) ≡ o
        → then o (compare s t) ≡ Ordering.gt
        → (compare s t ≡ Ordering.gt → compare t s ≡ Ordering.lt)
        → compare (String.◌∷◌ d t) (String.◌∷◌ c s) ≡ Ordering.lt
    decide Ordering.lt placed e rest = cc
    decide Ordering.eq placed e rest = lt-cons_rest d c t s (ground arith) (rest e)
    decide Ordering.gt placed e rest = lt-cons_first d c t s (ground arith)

-- The key comes before all others.
abbrev pub IsBefore {ℓ} : {V : Type ℓ} → String → Dict V → Type 0
IsBefore k m = AllOf (λ e. compare k e.0 ≡ Ordering.lt) m

abbrev pub IsSorted {ℓ} : {V : Type ℓ} → Dict V → Type 0
IsSorted [] = Unit
IsSorted ((k, v) ∷ m) = IsBefore k m × IsSorted m

IsBefore-trans {ℓ} :
    {V : Type ℓ} (j k : String) (m : Dict V)
    → compare j k ≡ Ordering.lt
    → IsBefore k m
    → IsBefore j m
IsBefore-trans j k m h later = AllOf-map m (λ e l. compare_trans j k e.0 h l) later

-- A property of all keys, and of the key put in.
pub upsert-AllOf {ℓ} :
    {V : Type ℓ} (P : String × V → Type 0) (k : String) (f : Option V → V) (m : Dict V)
    → ((o : Option V) → P (k, f o))
    → AllOf P m
    → AllOf P (upsert k f m)
unfolding upsert
upsert-AllOf P k f [] p h = (p _, tt)
upsert-AllOf {V} P k f ((j, v) ∷ m) p h = at_place (compare k j) refl (upsert-AllOf P k f m p h.1)
  where
    at_place :
        (o : Ordering)
        → compare k j ≡ o
        → AllOf P (upsert k f m)
        → AllOf P (elim o [
          | Ordering.lt ↦ (k, f none) ∷ (j, v) ∷ m
          | Ordering.eq ↦ (j, f (some v)) ∷ m
          | Ordering.gt ↦ (j, v) ∷ upsert k f m
        ])
    at_place Ordering.lt placed rest = (p _, h)
    at_place Ordering.eq placed rest =
        (subst (λ i. P (i, f (some v))) (path_by_compare k j placed) (p (some v)), h.1)
    at_place Ordering.gt placed rest = (h.0, rest)

pub upsert-IsSorted {ℓ} :
    {V : Type ℓ} (k : String) (f : Option V → V) (m : Dict V) → IsSorted m → IsSorted (upsert k f m)
unfolding upsert
upsert-IsSorted k f [] h = (tt, tt)
upsert-IsSorted {V} k f ((j, v) ∷ m) h = at_place (compare k j) refl (upsert-IsSorted k f m h.1)
  where
    at_place :
        (o : Ordering)
        → compare k j ≡ o
        → IsSorted (upsert k f m)
        → IsSorted (elim o [
          | Ordering.lt ↦ (k, f none) ∷ (j, v) ∷ m
          | Ordering.eq ↦ (j, f (some v)) ∷ m
          | Ordering.gt ↦ (j, v) ∷ upsert k f m
        ])
    at_place Ordering.lt placed rest = ((placed, IsBefore-trans k j m placed h.0), h)
    at_place Ordering.eq placed rest = h
    at_place Ordering.gt placed rest = (
      upsert-AllOf (λ e. compare j e.0 ≡ Ordering.lt) k f m (λ o. compare_swap k j placed) h.0,
      rest,
    )

-- A text that comes before another is not the other.
pub before-differ : (j k : String) → compare j k ≡ Ordering.lt → (j is k) ≡ false
before-differ j k less = elim (Bool-cases (j is k)) [
  | inl same ↦
      let e : compare j j ≡ Ordering.lt =
        subst (λ i. compare j i ≡ Ordering.lt) (sym ((eq_iff j k).0 same)) less in
      let f : is_eq (compare j j) ≡ true = (eq_iff j j).1 refl in cc (e, f)
  | inr differ ↦ differ
]

after-differ : (j k : String) → compare j k ≡ Ordering.lt → (k is j) ≡ false
after-differ j k less = elim (Bool-cases (k is j)) [
  | inl same ↦ let f = (eq_iff j k).1 (sym ((eq_iff k j).0 same)) in cc (f, before-differ j k less)
  | inr differ ↦ differ
]

-- A sorted map gives the value of each of its entries.
pub get-entries : {V : Type 0} (m : Dict V) → IsSorted m → AllOf (λ e. get e.0 m ≡ some e.1) m
unfolding get
get-entries [] h = tt
get-entries {V} ((j, v) ∷ m) h = (rw (get, (eq_iff j j).1 refl), later m h.0 (get-entries m h.1))
  where
    later :
        (es : Dict V)
        → IsBefore j es
        → AllOf (λ e. get e.0 m ≡ some e.1) es
        → AllOf (λ e. get e.0 ((j, v) ∷ m) ≡ some e.1) es
    later [] before found = tt
    later (e ∷ es) before found =
        (rw (get, after-differ j e.0 before.0) found.0, later es before.1 found.1)
