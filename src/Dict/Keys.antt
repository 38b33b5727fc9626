-- ===== src/Dict/Keys.antt =====
-- How many keys a sorted map can have.
use zgcmaster.Prelude.{
  suc, length, ◌≤◌, ◌≡◌, refl, sym, ap, subst, contains, if◌then◌else◌, inl, inr, arith, String,
  List, [], ◌∷◌, AllOf, true, false, ◌is◌, Bool-cases, eq_iff,
}
use zgcmaster.Dict.{Dict}
use zgcmaster.Dict.Order.{IsBefore, IsSorted, before-differ}

-- A list of texts less the first that is `k`.
unfoldable without : String → List String → List String
without k [] = []
without k (x ∷ xs) = if x is k then xs else x ∷ without k xs

length-without :
    (k : String) (xs : List String) → contains xs k ≡ true → length xs ≡ suc (length (without k xs))
unfolding without
length-without k [] h = cc
length-without k (x ∷ xs) h = elim (Bool-cases (x is k)) [
  | inl here ↦ rw here refl
  | inr other ↦ rw other (ap suc (length-without k xs (rw other at h)))
]

contains-without :
    (k j : String) (xs : List String)
    → (k is j) ≡ false
    → contains xs j ≡ true
    → contains (without k xs) j ≡ true
unfolding without
contains-without k j [] differ h = h
contains-without k j (x ∷ xs) differ h = elim (Bool-cases (x is k)) [
  | inl here ↦
      let e : (x is j) ≡ false = subst (λ y. (y is j) ≡ false) (sym ((eq_iff x k).0 here)) differ in
      rw here (rw e at h)
  | inr other ↦ elim (Bool-cases (x is j)) [
    | inl same ↦ rw (other, same)
    | inr later ↦ rw (other, later) (contains-without k j xs differ (rw later at h))
  ]
]

-- A sorted map has no more entries than there are texts among which its keys are.
pub length-IsSorted {ℓ} :
    {V : Type ℓ} (m : Dict V) (names : List String)
    → IsSorted m
    → AllOf (λ e. contains names e.0 ≡ true) m
    → length m ≤ length names
length-IsSorted [] names h all = omega arith
length-IsSorted {V} ((k, v) ∷ m) names h all =
    let rest = length-IsSorted m (without k names) h.1 (others m h.0 all.1) in
    omega (arith, rest, length-without k names all.0)
  where
    others :
        (es : Dict V)
        → IsBefore k es
        → AllOf (λ e. contains names e.0 ≡ true) es
        → AllOf (λ e. contains (without k names) e.0 ≡ true) es
    others [] before found = tt
    others (e ∷ es) before found = (
      contains-without k e.0 names (before-differ k e.0 before.0) found.0,
      others es before.1 found.1,
    )
