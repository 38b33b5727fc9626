-- ===== src/Maps/Laws.antt =====
-- What a parsed list of mappings is, and what `translate` finds in it.
use zgcmaster.Prelude.{
  ℕ, suc, ◌+◌, ◌-◌, ◌≤◌, ◌<◌, ◌≡◌, refl, false, not, List, [], ◌∷◌, ◌++◌, length, ltb, leb, ok,
  >>=-eq-ok, refuse_if, refuse_if-eq-ok, ok-injective, arith, Bool-cases, inl, inr, ap, subst, ◌∙◌,
}
use zgcmaster.Maps.{
  Mapping, parse_columns, parse_lines, insert_map, sort_maps, any_overlap, parse_maps, heap_lines,
  order_maps, columns_from, is_readable,
}

abbrev pub AllMaps : (Mapping → Type 0) → List Mapping → Type 0
AllMaps P [] = Unit
AllMaps P (m ∷ ms) = P m × AllMaps P ms

pub record IsInside (file_size : ℕ) (m : Mapping) : Type 0 where
  pub nonempty : m.start < m.end
  pub backed : m.offset + (m.end - m.start) ≤ file_size

-- In the order of their starts, each ending before the next begins.
abbrev pub IsDisjoint : List Mapping → Type 0
IsDisjoint [] = Unit
IsDisjoint (m ∷ []) = Unit
IsDisjoint (m ∷ k ∷ ks) = (m.end ≤ k.start) × IsDisjoint (k ∷ ks)

parse_columns-IsInside :
    (file_size : ℕ) (columns : List (List ℕ)) {m : Mapping}
    → parse_columns file_size columns ≡ ok m
    → IsInside file_size m
unfolding parse_columns
parse_columns-IsInside file_size columns h = ground arith

AllMaps-append :
    (P : Mapping → Type 0) (ms : List Mapping) (m : Mapping)
    → AllMaps P ms
    → P m
    → AllMaps P (ms ++ m ∷ [])
AllMaps-append P [] m h p = (p, tt)
AllMaps-append P (k ∷ ms) m h p = (h.0, AllMaps-append P ms m h.1 p)

parse_lines_lem :
    (file_size : ℕ) (lines : List (List ℕ)) (maps : List Mapping) {ms : List Mapping}
    → AllMaps (IsInside file_size) maps
    → length maps ≤ 65536
    → parse_lines file_size lines maps ≡ ok ms
    → AllMaps (IsInside file_size) ms × (length ms ≤ 65536)
unfolding parse_lines
parse_lines_lem file_size [] maps all fits h =
    subst (λ ms. AllMaps (IsInside file_size) ms × (length ms ≤ 65536)) (ok-injective h) (all, fits)
parse_lines_lem file_size (line ∷ lines) maps {ms} all fits h =
    elim (Bool-cases (not (is_readable (columns_from [] line)))) [
      | inl skip ↦ parse_lines_lem file_size lines maps all fits (rw skip at h)
      | inr use_it ↦
          let (m, parsed, rest) =
            >>=-eq-ok (parse_columns file_size (columns_from [] line)) _ (rw use_it at h) in
          let (u, few, more) =
            >>=-eq-ok (refuse_if (ltb 65536 (length (maps ++ m ∷ []))) "Too many memory mappings") _
              rest in
          let short = refuse_if-eq-ok _ "Too many memory mappings" few in
          parse_lines_lem file_size lines (maps ++ m ∷ [])
            (AllMaps-append (IsInside file_size) maps m all
              (parse_columns-IsInside file_size (columns_from [] line) parsed))
            (ground arith) more
    ]

insert_map-AllMaps :
    (P : Mapping → Type 0) (m : Mapping) (ms : List Mapping)
    → P m
    → AllMaps P ms
    → AllMaps P (insert_map m ms)
unfolding insert_map
insert_map-AllMaps P m [] p h = (p, tt)
insert_map-AllMaps P m (k ∷ ms) p h = elim (Bool-cases (leb m.start k.start)) [
  | inl e ↦ rw e (p, h)
  | inr e ↦ rw e (h.0, insert_map-AllMaps P m ms p h.1)
]

length-insert_map : (m : Mapping) (ms : List Mapping) → length (insert_map m ms) ≡ suc (length ms)
unfolding insert_map
length-insert_map m [] = refl
length-insert_map m (k ∷ ms) = elim (Bool-cases (leb m.start k.start)) [
  | inl e ↦ rw e
  | inr e ↦ rw e (ap suc (length-insert_map m ms))
]

sort_maps-AllMaps :
    (P : Mapping → Type 0) (ms : List Mapping) → AllMaps P ms → AllMaps P (sort_maps ms)
unfolding sort_maps
sort_maps-AllMaps P [] h = tt
sort_maps-AllMaps P (m ∷ ms) h =
    insert_map-AllMaps P m (sort_maps ms) h.0 (sort_maps-AllMaps P ms h.1)

length-sort_maps : (ms : List Mapping) → length (sort_maps ms) ≡ length ms
unfolding sort_maps
length-sort_maps [] = refl
length-sort_maps (m ∷ ms) = length-insert_map m (sort_maps ms) ∙ ap suc (length-sort_maps ms)

any_overlap-IsDisjoint : (ms : List Mapping) → any_overlap ms ≡ false → IsDisjoint ms
unfolding any_overlap
any_overlap-IsDisjoint [] h = tt
any_overlap-IsDisjoint (m ∷ []) h = tt
any_overlap-IsDisjoint (m ∷ k ∷ ks) h =
    (ground arith, any_overlap-IsDisjoint (k ∷ ks) (ground arith))

-- What `parse_maps` returns, whatever the text: between 1 and 65536 mappings, ordered and
-- disjoint in the address space, none empty and each inside the backing file.
pub record IsValidMaps (file_size : ℕ) (ms : List Mapping) : Type 0 where
  pub some_map : 0 < length ms
  pub few : length ms ≤ 65536
  pub disjoint : IsDisjoint ms
  pub inside : AllMaps (IsInside file_size) ms

order_maps-eq-ok :
    (maps ms : List Mapping)
    → order_maps maps ≡ ok ms
    → (0 < length maps) × (any_overlap (sort_maps maps) ≡ false) × (sort_maps maps ≡ ms)
unfolding order_maps
order_maps-eq-ok maps ms h = ground arith

-- Every list of mappings that `parse_maps` accepts has 1 to 65,536 of them, in ascending order and
-- disjoint, each nonempty and backed by bytes inside the file.
pub parse_maps-IsValidMaps :
    (text : List ℕ) (file_size : ℕ) (ms : List Mapping)
    → parse_maps text file_size ≡ ok ms
    → IsValidMaps file_size ms
unfolding parse_maps
parse_maps-IsValidMaps text file_size ms h =
    let (maps, parsed, ordered) =
      >>=-eq-ok (parse_lines file_size (heap_lines text) []) order_maps h in
    let facts = parse_lines_lem file_size (heap_lines text) [] tt (omega arith) parsed in
    let (full, apart, e) = order_maps-eq-ok maps ms ordered in
    subst (IsValidMaps file_size) e (record {
      some_map = omega (arith, length-sort_maps maps, full);
      few = omega (arith, length-sort_maps maps, facts.1);
      disjoint = any_overlap-IsDisjoint (sort_maps maps) apart;
      inside = sort_maps-AllMaps (IsInside file_size) maps facts.0;
    })
