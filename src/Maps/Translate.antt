-- ===== src/Maps/Translate.antt =====
-- `translate` finds exactly the byte that the mapping which covers an address puts there.
use zgcmaster.Prelude.{
  ℕ, zero, suc, ◌+◌, ◌-◌, ◌≤◌, ◌<◌, ◌≡◌, refl, Bool, true, false, Option, none, some, List, [], ◌∷◌,
  ltb, leb, ◌==◌, ok, arith, Bool-cases, inl, inr, ap, sym, subst, ◌∙◌, ◌⊎◌, if◌then◌else◌, le→leb,
  lt→ltb, leb→le, ltb→lt,
}
use zgcmaster.Words.{two64}
use zgcmaster.Maps.{Mapping, parse_maps, partition_point, pick, translate, offset_of}
use zgcmaster.Maps.Laws.{AllMaps, IsInside, IsDisjoint, parse_maps-IsValidMaps}

abbrev pub Has : Mapping → List Mapping → Type 0
Has m [] = ⊥
Has m (k ∷ ks) = (k ≡ m) ⊎ Has m ks

abbrev pub Covers : Mapping → ℕ → Type 0
Covers m address = (m.start ≤ address) × (address < m.end)

-- The mapping's bytes of the backing file, at the address.
abbrev pub backed_at : Mapping → ℕ → ℕ
backed_at m address = m.offset + (address - m.start)

Has-AllMaps :
    (P : Mapping → Type 0) (m : Mapping) (ms : List Mapping) → AllMaps P ms → Has m ms → P m
Has-AllMaps P m [] all h = absurd h
Has-AllMaps P m (k ∷ ks) all (inl e) = subst P e all.0
Has-AllMaps P m (k ∷ ks) all (inr h) = Has-AllMaps P m ks all.1 h

-- A later mapping starts after the end of the first.
later_start :
    (file_size : ℕ) (k m : Mapping) (ks : List Mapping)
    → AllMaps (IsInside file_size) (k ∷ ks)
    → IsDisjoint (k ∷ ks)
    → Has m ks
    → k.end ≤ m.start
later_start file_size k m [] all apart h = absurd h
later_start file_size k m (j ∷ js) all apart (inl e) =
    subst (λ (x : Mapping). k.end ≤ x.start) e apart.0
later_start file_size k m (j ∷ js) all apart (inr h) =
    let inside : IsInside file_size j = all.1.0 in
    omega (arith, later_start file_size j m js all.1 apart.1 h, apart.0, inside.nonempty)

abbrev at_entry : Mapping → ℕ → Option ℕ
at_entry k address = if ltb address k.end then some (offset_of k address) else none

pick-cons :
    (k : Mapping) (ks : List Mapping) (address : ℕ) (b : Bool) (p : ℕ)
    → pick (k ∷ ks) address (if b then suc p else 0)
      ≡ (if b then (if p == 0 then at_entry k address else pick ks address p) else none)
unfolding pick
pick-cons k ks address false p = refl
pick-cons k ks address true zero = refl
pick-cons k ks address true (suc j) = let e : (suc j == 0) ≡ false = ground arith in rw e

translate_nil : (address : ℕ) → translate [] address ≡ none
unfolding translate
translate_nil address = refl

-- One step of `translate` along the list.
translate-cons :
    (k : Mapping) (ks : List Mapping) (address : ℕ)
    → translate (k ∷ ks) address ≡ (
        if leb k.start address
        then (if partition_point ks address == 0 then at_entry k address else translate ks address)
        else none)
unfolding translate
translate-cons k ks address =
    pick-cons k ks address (leb k.start address) (partition_point ks address)

offset_of_exact :
    (file_size : ℕ) (m : Mapping) (address : ℕ)
    → file_size < two64
    → address < two64
    → IsInside file_size m
    → Covers m address
    → offset_of m address ≡ backed_at m address
offset_of_exact file_size m address hf ha inside covers =
    omega (arith, inside.nonempty, inside.backed, covers.0, covers.1)

IsDisjoint-tail : (k : Mapping) (ks : List Mapping) → IsDisjoint (k ∷ ks) → IsDisjoint ks
IsDisjoint-tail k [] h = tt
IsDisjoint-tail k (j ∷ js) h = h.1

partition_point-zero :
    (k : Mapping) (ks : List Mapping) (address : ℕ)
    → IsDisjoint (k ∷ ks)
    → address < k.end
    → partition_point ks address ≡ 0
unfolding partition_point
partition_point-zero k [] address apart h = refl
partition_point-zero k (j ∷ js) address apart h =
    let e : leb j.start address ≡ false = ground arith in rw e

partition_point-pos :
    (file_size : ℕ) (m : Mapping) (ks : List Mapping) (address : ℕ)
    → AllMaps (IsInside file_size) ks
    → IsDisjoint ks
    → Has m ks
    → m.start ≤ address
    → (partition_point ks address == 0) ≡ false
unfolding partition_point
partition_point-pos file_size m [] address all apart h le = absurd h
partition_point-pos file_size m (j ∷ js) address all apart (inl e) le =
    let f : leb j.start address ≡ true =
      le→leb _ _ (subst (λ (x : Mapping). x.start ≤ address) (sym e) le) in
    rw f (ground arith)
partition_point-pos file_size m (j ∷ js) address all apart (inr h) le =
    let inside : IsInside file_size j = all.0 in
    let f : leb j.start address ≡ true =
      le→leb _ _ (omega (arith, later_start file_size j m js all apart h, inside.nonempty)) in
    rw f (ground arith)

some_eq : (t u : ℕ) → some u ≡ some t → t ≡ u
some_eq t u e = cc

absurd_none : {A : Type 0} (t : ℕ) → ◌≡◌ {A = Option ℕ} none (some t) → A
absurd_none t e = cc

module _ (file_size address : ℕ) (small : file_size < two64) (word : address < two64) where
  -- An address that a mapping covers translates to the byte that the mapping puts there.
  translate-Has :
      (ms : List Mapping) (m : Mapping)
      → AllMaps (IsInside file_size) ms
      → IsDisjoint ms
      → Has m ms
      → Covers m address
      → translate ms address ≡ some (backed_at m address)
  translate-Has [] m all apart h covers = absurd h
  translate-Has (k ∷ ks) m all apart (inl e) covers =
      let inside : IsInside file_size m = subst (IsInside file_size) e all.0 in
      translate-cons k ks address
      ∙ subst
          (λ (x : Mapping).
            (if leb x.start address
              then (if partition_point ks address == 0
                  then at_entry x address
                  else translate ks address)
              else none)
            ≡ some (backed_at m address))
          (sym e)
          (rw
            (
              le→leb _ _ covers.0,
              partition_point-zero k ks address apart
                  (subst (λ (x : Mapping). address < x.end) (sym e) covers.1),
              lt→ltb _ _ covers.1,
            )
            (ap some (offset_of_exact file_size m address small word inside covers)))
  translate-Has (k ∷ ks) m all apart (inr h) covers =
      let inside : IsInside file_size k = all.0 in
      let f : leb k.start address ≡ true =
        le→leb _ _
          (omega (arith, later_start file_size k m ks all apart h, inside.nonempty, covers.0)) in
      translate-cons k ks address
      ∙ rw
          (
            f,
            partition_point-pos file_size m ks address all.1 (IsDisjoint-tail k ks apart) h
                covers.0,
          )
          (translate-Has ks m all.1 (IsDisjoint-tail k ks apart) h covers)

  -- What `translate` finds is the byte of a mapping that covers the address.
  translate_sound :
      (ms : List Mapping) (t : ℕ)
      → AllMaps (IsInside file_size) ms
      → translate ms address ≡ some t
      → (m : Mapping) × Has m ms × Covers m address × (t ≡ backed_at m address)
  translate_sound [] t all h = absurd_none t (sym (translate_nil address) ∙ h)
  translate_sound (k ∷ ks) t all h =
      let g = sym (translate-cons k ks address) ∙ h in
      elim (Bool-cases (leb k.start address)) [
        | inr below ↦ absurd_none t (rw below at g)
        | inl above ↦ elim (Bool-cases (partition_point ks address == 0)) [
          | inr more ↦
              let (m, has, covers, e) = translate_sound ks t all.1 (rw (above, more) at g) in
              (m, inr has, covers, e)
          | inl here ↦ elim (Bool-cases (ltb address k.end)) [
            | inr past ↦ absurd_none t (rw (above, here, past) at g)
            | inl inside ↦
                let covers : Covers k address = (leb→le _ _ above, ltb→lt _ _ inside) in
                (
                  k,
                  inl refl,
                  covers,
                  some_eq t (offset_of k address) (rw (above, here, inside) at g)
                      ∙ offset_of_exact file_size k address small word all.0 covers,
                )
          ]
        ]
      ]

-- For the mappings that `parse_maps` returns for a capture of fewer than 2 ^ 64 bytes, and a u64
-- address: the address translates to an offset exactly when some mapping covers it, the offset is
-- then the one that this mapping gives, and it lies inside the capture.
pub translate-parse_maps :
    (text : List ℕ) (file_size address : ℕ) (ms : List Mapping)
    → file_size < two64
    → address < two64
    → parse_maps text file_size ≡ ok ms
    → ((m : Mapping)
        → Has m ms
        → Covers m address
        → translate ms address ≡ some (backed_at m address))
      × ((t : ℕ)
          → translate ms address ≡ some t
          → (t < file_size)
            × ((m : Mapping) × Has m ms × Covers m address × (t ≡ backed_at m address)))
translate-parse_maps text file_size address ms small word h =
    let valid = parse_maps-IsValidMaps text file_size ms h in
    (
      λ m has covers.
          translate-Has file_size address small word ms m valid.inside valid.disjoint has covers,
      λ t e.
          let (m, has, covers, f) =
            translate_sound file_size address small word ms t valid.inside e in
          let inside : IsInside file_size m =
            Has-AllMaps (IsInside file_size) m ms valid.inside has in
          (
            omega (arith, f, inside.nonempty, inside.backed, covers.0, covers.1),
            (m, has, covers, f),
          ),
    )
