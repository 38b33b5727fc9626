-- ===== src/Dict.antt =====
-- `BTreeMap<String, V>`: an association list in the order of its keys, so that two maps are equal
-- exactly when their lists are. `Counts` is the map that the reports count with.
pub mod Laws
pub mod Order
pub mod Keys
use Prim.Native.String.{compare}
use Prim.Native.Nat.{Ordering}
use zgcmaster.Prelude.{
  ℕ, ◌+◌, String, Option, none, some, List, [], ◌∷◌, Bool, true, false, is_some, ◌is◌,
}

abbrev pub Dict {ℓ} : Type ℓ → Type ℓ
Dict V = List (String × V)

module _ {ℓ} {V : Type ℓ} where
  unfoldable pub get : String → Dict V → Option V
  get k [] = none
  get k ((j, v) ∷ m) = elim (k is j) [ true ↦ some v | false ↦ get k m ]

  -- `entry(k)`, with what the entry becomes.
  unfoldable pub upsert : String → (Option V → V) → Dict V → Dict V
  upsert k f [] = (k, f none) ∷ []
  upsert k f ((j, v) ∷ m) = elim (compare k j) [
    | Ordering.lt ↦ (k, f none) ∷ (j, v) ∷ m
    | Ordering.eq ↦ (j, f (some v)) ∷ m
    | Ordering.gt ↦ (j, v) ∷ upsert k f m
  ]

  unfoldable pub insert : String → V → Dict V → Dict V
  unfolding upsert
  insert k v m = upsert k (λ o. v) m

-- Under every key of a map, what a function gives for the key.
unfoldable pub insert_all {ℓ κ} :
    {V : Type ℓ} {W : Type κ} → (String → W) → Dict V → Dict W → Dict W
unfolding insert
insert_all f [] m = m
insert_all f ((k, v) ∷ keys) m = insert_all f keys (insert k (f k) m)

abbrev pub Counts : Type 0
Counts = Dict ℕ

abbrev pub plus : ℕ → Option ℕ → ℕ
plus n none = n
plus n (some m) = m + n

-- `*map.entry(name).or_default() += n`, and `bump` with `n = 1`.
unfoldable pub add_to : String → ℕ → Counts → Counts
unfolding upsert
add_to name n m = upsert name (plus n) m

unfoldable pub bump : String → Counts → Counts
unfolding add_to
bump name m = add_to name 1 m

-- The sum of the counts.
unfoldable pub total : Counts → ℕ
total [] = 0
total ((k, n) ∷ m) = n + total m
