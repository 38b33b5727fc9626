-- ===== src/Maps.antt =====
-- `Mapping`, `parse_maps` and `translate` of src/lib.rs: the captured `/proc/PID/maps`.
pub mod Laws
pub mod Translate
use zgcmaster.Prelude.{
  ℕ, zero, suc, ◌+◌, ◌-◌, ◌%◌, ◌≤◌, Bool, true, false, ◌&&◌, ◌||◌, not, String, Option, none, some,
  List, [], ◌∷◌, ◌++◌, length, get_elem?, filter, ltb, leb, ◌==◌, if◌then◌else◌, codes, has_infix,
  starts_with, Result, ok, err, invalid, ◌>>=◌, ◌>>◌, refuse_if, ok_or, and_then,
}
use zgcmaster.Words.{two64, checked_add, unsigned}

pub record Mapping : Type 0 where
  pub start : ℕ
  pub end : ℕ
  pub offset : ℕ

-- `str::lines`, on the code points of a text: a line ends at a line feed, with or without a
-- carriage return before it, and a last empty line is none.
abbrev drop_return : List ℕ → List ℕ
drop_return [] = []
drop_return (c ∷ []) = if c == 13 then [] else c ∷ []
drop_return (c ∷ d ∷ s) = c ∷ drop_return (d ∷ s)

unfoldable pub lines_from : List ℕ → List ℕ → List (List ℕ)
lines_from [] [] = []
lines_from (c ∷ line) [] = (c ∷ line) ∷ []
lines_from line (c ∷ s) =
    if c == 10 then drop_return line ∷ lines_from [] s else lines_from (line ++ c ∷ []) s

abbrev is_space : ℕ → Bool
is_space c = c == 32 || (leb 9 c && leb c 13)

abbrev push_column : List ℕ → List (List ℕ) → List (List ℕ)
push_column [] cols = cols
push_column (c ∷ w) cols = (c ∷ w) ∷ cols

-- `str::split_whitespace`, on ASCII.
unfoldable pub columns_from : List ℕ → List ℕ → List (List ℕ)
columns_from word [] = push_column word []
columns_from word (c ∷ s) = elim (is_space c) [
  | true ↦ push_column word (columns_from [] s)
  | false ↦ columns_from (word ++ c ∷ []) s
]

-- `split_once('-')`.
unfoldable pub split_dash : List ℕ → List ℕ → Option (List ℕ × List ℕ)
split_dash left [] = none
split_dash left (c ∷ s) = elim (c == b'-') [
  | true ↦ some (left, s)
  | false ↦ split_dash (left ++ c ∷ []) s
]

abbrev pub hex_address : List ℕ → Result ℕ
hex_address s = ok_or (unsigned 16 s) "Bad mapping address"

abbrev column : List (List ℕ) → ℕ → List ℕ
column [] i = []
column (c ∷ cs) zero = c
column (c ∷ cs) (suc i) = column cs i

-- A line of fewer than six columns, or of a mapping that is not readable, is passed over.
unfoldable pub is_readable : List (List ℕ) → Bool
is_readable columns = leb 6 (length columns) && starts_with (codes "r") (column columns 1)

abbrev pub is_outside : Mapping → ℕ → Bool
is_outside m file_size = leb m.end m.start || (elim (checked_add m.offset (m.end - m.start)) [
  | none ↦ true
  | some end ↦ ltb file_size end
])

unfoldable pub parse_columns : ℕ → List (List ℕ) → Result Mapping
unfolding split_dash
parse_columns file_size columns = do
  range ← ok_or (split_dash [] (column columns 0)) "Bad mapping range"
  start ← hex_address range.0
  end ← hex_address range.1
  offset ← hex_address (column columns 2)
  let mapping : Mapping = record { start = start; end = end; offset = offset }
  refuse_if (is_outside mapping file_size) "Mapping outside backing file"
  ok mapping

-- The loop over the lines that name the heap's memfd.
unfoldable pub parse_lines : ℕ → List (List ℕ) → List Mapping → Result (List Mapping)
unfolding columns_from is_readable parse_columns
parse_lines file_size [] maps = ok maps
parse_lines file_size (line ∷ lines) maps =
    let skip = parse_lines file_size lines maps in
    let columns = columns_from [] line in
    if not (is_readable columns)
    then skip
    else (parse_columns file_size columns >>= λ mapping.
        let pushed = maps ++ mapping ∷ [] in
        refuse_if (ltb 65536 (length pushed)) "Too many memory mappings" >>= λ u.
        parse_lines file_size lines pushed)

-- `sort_by_key(|map| map.start)`, which is stable.
unfoldable pub insert_map : Mapping → List Mapping → List Mapping
insert_map m [] = m ∷ []
insert_map m (k ∷ ks) = if leb m.start k.start then m ∷ k ∷ ks else k ∷ insert_map m ks

unfoldable pub sort_maps : List Mapping → List Mapping
unfolding insert_map
sort_maps [] = []
sort_maps (m ∷ ms) = insert_map m (sort_maps ms)

-- `windows(2).any(|pair| pair[0].end > pair[1].start)`.
unfoldable pub any_overlap : List Mapping → Bool
any_overlap [] = false
any_overlap (m ∷ []) = false
any_overlap (m ∷ k ∷ ks) = ltb k.start m.end || any_overlap (k ∷ ks)

-- The lines that name the memfd of the heap.
unfoldable pub heap_lines : List ℕ → List (List ℕ)
unfolding lines_from
heap_lines text = filter (has_infix (codes "/memfd:java_heap")) (lines_from [] text)

-- What `parse_maps` does after its loop.
unfoldable pub order_maps : List Mapping → Result (List Mapping)
unfolding sort_maps any_overlap
order_maps maps = do
  refuse_if (length maps == 0) "No readable ZGC memfd mappings"
  let sorted = sort_maps maps
  refuse_if (any_overlap sorted) "Overlapping virtual mappings"
  ok sorted

unfoldable pub parse_maps : List ℕ → ℕ → Result (List Mapping)
unfolding heap_lines parse_lines order_maps
parse_maps text file_size = parse_lines file_size (heap_lines text) [] >>= order_maps

-- `partition_point(|m| m.start <= address)` on a list that is sorted by `start`.
unfoldable pub partition_point : List Mapping → ℕ → ℕ
partition_point [] address = 0
partition_point (m ∷ ms) address =
    if leb m.start address then suc (partition_point ms address) else 0

-- `map.offset + address - map.start`, modulo 2 ^ 64.
abbrev pub offset_of : Mapping → ℕ → ℕ
offset_of m address = ((m.offset + address) % two64 + two64 - m.start) % two64

-- `checked_sub(1)`, and what the mapping there says of the address.
unfoldable pub pick : List Mapping → ℕ → ℕ → Option ℕ
pick maps address zero = none
pick maps address (suc i) =
    and_then (get_elem? maps i) λ m. if ltb address m.end then some (offset_of m address) else none

unfoldable pub translate : List Mapping → ℕ → Option ℕ
unfolding partition_point pick
translate maps address = pick maps address (partition_point maps address)
