-- ===== src/Sets/Laws.antt =====
-- The sets of Sets: ascending, and with the members that were put in.
use zgcmaster.Prelude.{
  ℕ, length, AllOf, AllOf-map, sym, subst, ==_iff, ◌+◌, ◌≤◌, ◌≡◌, refl, Bool, ◌||◌, List, [], ◌∷◌,
  any, ltb, ◌==◌, Bool-cases, inl, inr, arith, ap, ◌∙◌,
}
use zgcmaster.Sets.{insert_set, set_of, update}

-- Strictly ascending numbers, none below `lo`.
abbrev pub IsAscending : ℕ → List ℕ → Type 0
IsAscending lo [] = Unit
IsAscending lo (k ∷ ks) = (lo ≤ k) × IsAscending (k + 1) ks

abbrev pub has : ℕ → List ℕ → Bool
has k ks = any (λ j. j == k) ks

IsAscending-weaken : (lo lo' : ℕ) (ks : List ℕ) → lo ≤ lo' → IsAscending lo' ks → IsAscending lo ks
IsAscending-weaken lo lo' [] le h = tt
IsAscending-weaken lo lo' (k ∷ ks) le h = (omega (arith, h.0), h.1)

pub insert_set-IsAscending :
    (lo k : ℕ) (ks : List ℕ) → lo ≤ k → IsAscending lo ks → IsAscending lo (insert_set k ks)
unfolding insert_set
insert_set-IsAscending lo k [] le h = (le, tt)
insert_set-IsAscending lo k (j ∷ js) le h = elim (Bool-cases (k == j)) [
  | inl same ↦ rw same h
  | inr other ↦ rw other (elim (Bool-cases (ltb k j)) [
    | inl below ↦ rw below (le, (ground arith, h.1))
    | inr above ↦ rw above (h.0, insert_set-IsAscending (j + 1) k js (ground arith) h.1)
  ])
]

has-insert_set : (i k : ℕ) (ks : List ℕ) → has i (insert_set k ks) ≡ (k == i) || has i ks
unfolding insert_set
has-insert_set i k [] = refl
has-insert_set i k (j ∷ js) = elim (Bool-cases (k == j)) [
  | inl same ↦ rw same (ground arith)
  | inr other ↦ rw other (elim (Bool-cases (ltb k j)) [
    | inl below ↦ rw below refl
    | inr above ↦ rw (above, has-insert_set i k js) (swap (j == i) (k == i) (has i js))
  ])
]
  where
    swap : (a b c : Bool) → a || (b || c) ≡ b || (a || c)
    swap a b c = ground arith

-- Sorting numbers gives them in strictly ascending order, and neither loses nor adds one.
pub set_of_lem :
    (ks : List ℕ) → IsAscending 0 (set_of ks) × ((i : ℕ) → has i (set_of ks) ≡ has i ks)
unfolding set_of
set_of_lem [] = (tt, λ i. refl)
set_of_lem (k ∷ ks) = (
  insert_set-IsAscending 0 k (set_of ks) (omega arith) (set_of_lem ks).0,
  λ i. has-insert_set i k (set_of ks) ∙ ap (λ t. (k == i) || t) ((set_of_lem ks).1 i),
)

pub length-insert_set : (k : ℕ) (ks : List ℕ) → length (insert_set k ks) ≤ length ks + 1
unfolding insert_set
length-insert_set k [] = omega arith
length-insert_set k (j ∷ js) = elim (Bool-cases (k == j)) [
  | inl same ↦ rw same (omega arith)
  | inr other ↦ rw other (elim (Bool-cases (ltb k j)) [
    | inl below ↦ rw below (omega arith)
    | inr above ↦ rw above (omega (arith, length-insert_set k js))
  ])
]

-- What holds of the members holds of them with one more.
pub insert_set-AllOf :
    (P : ℕ → Type 0) (k : ℕ) (ks : List ℕ) → P k → AllOf P ks → AllOf P (insert_set k ks)
unfolding insert_set
insert_set-AllOf P k [] h hs = (h, tt)
insert_set-AllOf P k (j ∷ js) h hs = elim (Bool-cases (k == j)) [
  | inl same ↦ rw same hs
  | inr other ↦ rw other (elim (Bool-cases (ltb k j)) [
    | inl below ↦ rw below (h, hs)
    | inr above ↦ rw above (hs.0, insert_set-AllOf P k js h hs.1)
  ])
]

-- What holds of the entries of a map holds after a change of one of them that keeps it.
pub update-AllOf {ℓ} :
    {V : Type ℓ} (P Q : ℕ × V → Type 0) (k : ℕ) (fresh : V) (change : V → V) (m : List (ℕ × V))
    → P (k, fresh)
    → ((v : V) → P (k, v) → Q (k, change v))
    → ((e : ℕ × V) → P e → Q e)
    → AllOf P m
    → AllOf Q (update k fresh change m)
unfolding update
update-AllOf P Q k fresh change [] new changed kept h = (changed fresh new, tt)
update-AllOf P Q k fresh change ((j, v) ∷ m) new changed kept h = elim (Bool-cases (k == j)) [
  | inl same ↦
      let at_key : P (k, v) = subst (λ i. P (i, v)) (sym ((==_iff k j).0 same)) h.0 in
      rw same (
        subst (λ i. Q (i, change v)) ((==_iff k j).0 same) (changed v at_key),
        AllOf-map m kept h.1,
      )
  | inr other ↦ rw other (elim (Bool-cases (ltb k j)) [
    | inl below ↦ rw below (changed fresh new, (kept (j, v) h.0, AllOf-map m kept h.1))
    | inr above ↦ rw above (kept (j, v) h.0, update-AllOf P Q k fresh change m new changed kept h.1)
  ])
]
