-- ===== src/Sets.antt =====
-- `BTreeSet<u64>`, and a `Vec<u64>` after `sort_unstable` and `dedup`: the numbers in ascending order,
-- each once. And `BTreeMap<u64, V>`, a list in the order of its keys.
pub mod Laws
use zgcmaster.Prelude.{ℕ, Bool, true, false, List, [], ◌∷◌, ltb, ◌==◌, if◌then◌else◌}

unfoldable pub insert_set : ℕ → List ℕ → List ℕ
insert_set k [] = k ∷ []
insert_set k (j ∷ js) =
    let rest = insert_set k js in
    if k == j then j ∷ js else if ltb k j then k ∷ j ∷ js else j ∷ rest

unfoldable pub set_of : List ℕ → List ℕ
unfolding insert_set
set_of [] = []
set_of (k ∷ ks) = insert_set k (set_of ks)

-- What is done to `map.entry(k).or_default()`.
unfoldable pub update {ℓ} : {V : Type ℓ} → ℕ → V → (V → V) → List (ℕ × V) → List (ℕ × V)
update k fresh change [] = (k, change fresh) ∷ []
update k fresh change ((j, v) ∷ m) =
    let after = update k fresh change m in
    if k == j
    then (j, change v) ∷ m
    else if ltb k j
    then (k, change fresh) ∷ (j, v) ∷ m
    else (j, v) ∷ after
