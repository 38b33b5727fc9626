-- ===== src/Census/Laws.antt =====
-- The accounting of src/census.rs.
use Prim.Native.String.{compare}
use Prim.Native.Nat.{Ordering}
use zgcmaster.Prelude.{
  ℕ, ◌+◌, ◌≡◌, refl, false, String, none, some, List, [], ◌∷◌, arith, for_each, refuse_if,
  refuse_if-eq-ok, ok_or, ok_or-eq-ok, >>-eq-ok, >>=-eq-ok, ok,
}
use zgcmaster.Dict.{Dict, upsert}
use zgcmaster.Layout.{Layout}
use zgcmaster.Scan.{Index}
use zgcmaster.Census.{Tally, tally, tally_entry, lacks, require_indexed}

-- The counts and the bytes of all tallies.
unfoldable pub total_count : Dict Tally → ℕ
total_count [] = 0
total_count ((name, t) ∷ map) = t.count + total_count map

unfoldable pub total_bytes : Dict Tally → ℕ
total_bytes [] = 0
total_bytes ((name, t) ∷ map) = t.payload_bytes + total_bytes map

total-upsert :
    (name : String) (n : ℕ) (m : Dict Tally)
    → (total_count (upsert name (tally_entry n) m) ≡ total_count m + 1)
      × (total_bytes (upsert name (tally_entry n) m) ≡ total_bytes m + n)
unfolding upsert total_count total_bytes
total-upsert name n [] = (refl, omega arith)
total-upsert name n ((j, t) ∷ m) = at_place (compare name j) (total-upsert name n m)
  where
    at_place :
        (o : Ordering)
        → (total_count (upsert name (tally_entry n) m) ≡ total_count m + 1)
          × (total_bytes (upsert name (tally_entry n) m) ≡ total_bytes m + n)
        → (total_count (elim o [
          | Ordering.lt ↦ (name, tally_entry n none) ∷ (j, t) ∷ m
          | Ordering.eq ↦ (j, tally_entry n (some t)) ∷ m
          | Ordering.gt ↦ (j, t) ∷ upsert name (tally_entry n) m
        ])
            ≡ t.count + total_count m + 1)
          × (total_bytes (elim o [
            | Ordering.lt ↦ (name, tally_entry n none) ∷ (j, t) ∷ m
            | Ordering.eq ↦ (j, tally_entry n (some t)) ∷ m
            | Ordering.gt ↦ (j, t) ∷ upsert name (tally_entry n) m
          ])
              ≡ t.payload_bytes + total_bytes m + n)
    at_place Ordering.lt rest = (omega arith, omega arith)
    at_place Ordering.eq rest = (omega arith, omega arith)
    at_place Ordering.gt (counts, bytes) = (omega (arith, counts), omega (arith, bytes))

-- A tally adds one to the count of all entries and the payload to their bytes, whether the name is
-- new or not.
pub total-tally :
    (map : Dict Tally) (name : String) (n : ℕ)
    → (total_count (tally map name n) ≡ total_count map + 1)
      × (total_bytes (tally map name n) ≡ total_bytes map + n)
unfolding tally
total-tally map name n = total-upsert name n map

-- A class of the name is in the layout of an index that keeps it.
pub record IsIncluded (index : Index) (name : String) : Type 0 where
  pub layout : Layout
  pub with_layout : index.layout ≡ some layout
  pub included : lacks layout index.only name ≡ false

abbrev pub AllNames : (String → Type 0) → List String → Type 0
AllNames P [] = Unit
AllNames P (name ∷ names) = P name × AllNames P names

for_each-AllNames :
    (index : Index) (layout : Layout) (names : List String)
    → index.layout ≡ some layout
    → for_each (λ name. refuse_if (lacks layout index.only name) "Index must include a class") names
      ≡ ok tt
    → AllNames (IsIncluded index) names
for_each-AllNames index layout [] e h = tt
for_each-AllNames index layout (name ∷ names) e h =
    let (here, rest) = >>-eq-ok (refuse_if (lacks layout index.only name) _) _ h in
    (
      record {
        layout = layout;
        with_layout = e;
        included = refuse_if-eq-ok (lacks layout index.only name) _ here;
      },
      for_each-AllNames index layout names e rest,
    )

-- An index that is accepted for some class names has a layout with each of them, and was made with
-- each of them selected.
pub require_indexed-IsIncluded :
    (index : Index) (names : List String)
    → require_indexed index names ≡ ok tt
    → AllNames (IsIncluded index) names
unfolding require_indexed
require_indexed-IsIncluded index names h =
    let (layout, present, checked) = >>=-eq-ok (ok_or index.layout "Typed index required") _ h in
    for_each-AllNames index layout names (ok_or-eq-ok index.layout _ present) checked
