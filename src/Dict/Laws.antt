-- ===== src/Dict/Laws.antt =====
-- The laws of the counting maps that the reports rest on.
use Prim.Native.String.{compare}
use Prim.Native.Nat.{Ordering}
use zgcmaster.Prelude.{
  ℕ, suc, ◌≤◌, length, ◌+◌, Bool, true, false, ◌is◌, if◌then◌else◌, is_some, Option, subst, ap, ◌∙◌,
  Bool-cases, inl, inr, refl, String, none, some, [], ◌∷◌, ◌≡◌, arith,
}
use text.Mathlib.TextEquality.{path_by_compare, eq_iff}
use text.Mathlib.Text.{is_eq}
use zgcmaster.Dict.{Dict, get, insert, insert_all, Counts, plus, upsert, add_to, bump, total}

pub total-add_to : (k : String) (n : ℕ) (m : Counts) → total (add_to k n m) ≡ total m + n
unfolding total add_to upsert
total-add_to k n [] = omega arith
total-add_to k n ((j, v) ∷ m) =
    elim (compare k j)
      as (λ o.
        total (elim o [
          | Ordering.lt ↦ (k, plus n none) ∷ (j, v) ∷ m
          | Ordering.eq ↦ (j, plus n (some v)) ∷ m
          | Ordering.gt ↦ (j, v) ∷ upsert k (plus n) m
        ])
        ≡ v + total m + n) [
          | Ordering.lt ↦ omega arith
          | Ordering.eq ↦ omega arith
          | Ordering.gt ↦ omega (arith, total-add_to k n m)
        ]

pub total-bump : (k : String) (m : Counts) → total (bump k m) ≡ total m + 1
unfolding bump
total-bump k m = total-add_to k 1 m

-- The counts of one key.
unfoldable pub count_of : String → Counts → ℕ
count_of k [] = 0
count_of k ((j, n) ∷ m) = (if j is k then n else 0) + count_of k m

pub count_of-add_to :
    (k j : String) (n : ℕ) (m : Counts)
    → count_of k (add_to j n m) ≡ count_of k m + (if j is k then n else 0)
unfolding count_of add_to upsert
count_of-add_to k j n [] = omega arith
count_of-add_to k j n ((i, v) ∷ m) =
    at_place (compare j i) (λ e. path_by_compare j i e) (count_of-add_to k j n m)
  where
    at_place :
        (o : Ordering)
        → (o ≡ Ordering.eq → j ≡ i)
        → count_of k (add_to j n m) ≡ count_of k m + (if j is k then n else 0)
        → count_of k (elim o [
          | Ordering.lt ↦ (j, plus n none) ∷ (i, v) ∷ m
          | Ordering.eq ↦ (i, plus n (some v)) ∷ m
          | Ordering.gt ↦ (i, v) ∷ upsert j (plus n) m
        ])
          ≡ (if i is k then v else 0) + count_of k m + (if j is k then n else 0)
    at_place Ordering.lt same rest = omega arith
    at_place Ordering.eq same rest = rw (same refl) (added (i is k))
      where
        added :
            (b : Bool)
            → (if b then v + n else 0) + count_of k m
              ≡ (if b then v else 0) + count_of k m + (if b then n else 0)
        added true = omega arith
        added false = omega arith
    at_place Ordering.gt same rest = omega (arith, rest)

pub length-insert {ℓ} :
    {V : Type ℓ} (k : String) (v : V) (m : Dict V) → length (insert k v m) ≤ length m + 1
unfolding insert upsert
length-insert k v [] = omega arith
length-insert k v ((j, w) ∷ m) =
    elim (compare k j)
      as (λ o.
        length (elim o [
          | Ordering.lt ↦ (k, v) ∷ (j, w) ∷ m
          | Ordering.eq ↦ (j, v) ∷ m
          | Ordering.gt ↦ (j, w) ∷ upsert k (λ o. v) m
        ])
        ≤ suc (length m) + 1) [
          | Ordering.lt ↦ omega arith
          | Ordering.eq ↦ omega arith
          | Ordering.gt ↦ omega (arith, length-insert k v m)
        ]

is_self : (k : String) → k is k ≡ true
is_self k = (eq_iff k k).1 refl

pub get-insert_same {ℓ} :
    {V : Type ℓ} (k : String) (v : V) (m : Dict V) → get k (insert k v m) ≡ some v
unfolding get insert upsert
get-insert_same k v [] = rw (get, is_self k)
get-insert_same {V} k v ((j, w) ∷ m) = at_place (compare k j) refl (get-insert_same k v m)
  where
    at_place :
        (o : Ordering)
        → compare k j ≡ o
        → get k (insert k v m) ≡ some v
        → get k (elim o [
          | Ordering.lt ↦ (k, v) ∷ (j, w) ∷ m
          | Ordering.eq ↦ (j, v) ∷ m
          | Ordering.gt ↦ (j, w) ∷ upsert k (λ o. v) m
        ])
          ≡ some v
    at_place Ordering.lt placed rest = rw (get, is_self k)
    at_place Ordering.eq placed rest = let e : (k is j) ≡ true = ap is_eq placed in rw (get, e)
    at_place Ordering.gt placed rest =
        let e : (k is j) ≡ false = ap is_eq placed in rw (get, e) rest

pub get-insert_other {ℓ} :
    {V : Type ℓ} (k j : String) (v : V) (m : Dict V)
    → (k is j) ≡ false
    → get k (insert j v m) ≡ get k m
unfolding get insert upsert
get-insert_other k j v [] h = rw (get, h)
get-insert_other {V} k j v ((i, w) ∷ m) h =
    at_place (compare j i) (λ e. path_by_compare j i e) (get-insert_other k j v m h)
  where
    at_place :
        (o : Ordering)
        → (o ≡ Ordering.eq → j ≡ i)
        → get k (insert j v m) ≡ get k m
        → get k (elim o [
          | Ordering.lt ↦ (j, v) ∷ (i, w) ∷ m
          | Ordering.eq ↦ (i, v) ∷ m
          | Ordering.gt ↦ (i, w) ∷ upsert j (λ o. v) m
        ])
          ≡ get k ((i, w) ∷ m)
    at_place Ordering.lt same rest = rw (get, h)
    at_place Ordering.eq same rest =
        let e : (k is i) ≡ false = subst (λ x. (k is x) ≡ false) (same refl) h in rw (get, e)
    at_place Ordering.gt same rest = elim (Bool-cases (k is i)) [
      | inl here ↦ rw (get, here)
      | inr later ↦ rw (get, later) rest
    ]

-- What a map holds after a function's values have been put under the keys of another.
pub get-insert_all {ℓ κ} :
    {V : Type ℓ} {W : Type κ} (f : String → W) (k : String) (keys : Dict V) (m : Dict W)
    → get k (insert_all f keys m) ≡ (if is_some (get k keys) then some (f k) else get k m)
unfolding insert_all get
get-insert_all f k [] m = refl
get-insert_all {V} {W} f k ((j, v) ∷ keys) m =
    at_key (k is j) refl (get-insert_all f k keys (insert j (f j) m))
  where
    next : Dict W
    next = insert j (f j) m

    either : (b : Bool) (o : Option W) → o ≡ some (f k) → (if b then some (f k) else o) ≡ some (f k)
    either true o e = refl
    either false o e = e

    at_key :
        (b : Bool)
        → (k is j) ≡ b
        → get k (insert_all f keys next) ≡ (if is_some (get k keys) then some (f k) else get k next)
        → get k (insert_all f keys next) ≡ (
            if is_some (elim b [ true ↦ some v | false ↦ get k keys ]) then some (f k) else get k m)
    at_key true here rest =
        let e : k ≡ j = (eq_iff k j).0 here in
        rest
        ∙ either (is_some (get k keys)) (get k next)
            (subst (λ x. get k (insert x (f x) m) ≡ some (f k)) e (get-insert_same k (f k) m))
    at_key false other rest =
        rest
        ∙ ap (λ o. if is_some (get k keys) then some (f k) else o)
            (get-insert_other k j (f j) m other)
