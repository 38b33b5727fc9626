-- ===== src/Dictionaries.antt =====
-- src/dictionaries.rs: the nodes of hash tables, each decoded into a key and a value. A row stands
-- for its JSON text, whose lossy UTF-16 decoding and regex matches other code makes.
pub mod Klasses
pub mod Entries
pub mod Counted
pub mod Sound
use zgcmaster.Prelude.{
  ℕ, ◌+◌, ◌*◌, ◌/◌, ◌%◌, ◌^◌, bit_xor, Bool, true, false, ◌&&◌, ◌||◌, not, String, join, Option,
  none, some, List, [], ◌∷◌, ◌++◌, length, slice, any, ltb, leb, ◌==◌, ◌is◌, if◌then◌else◌,
  and_then, Result, ok, err, invalid, ◌>>=◌, ◌>>◌, refuse_if,
}
use zgcmaster.Words.{u32_max, word}
use zgcmaster.Words.Hex.{hex}
use zgcmaster.Sets.{set_of}
use zgcmaster.Dict.{Counts, bump}
use zgcmaster.Digest.{Digest}
use zgcmaster.Address.{target, is_null}
use zgcmaster.RawStrings.{
  Bindings, Pair, Decoded, pair, rejected, header_width, array_base, read_at, mark_ok,
  aligned_target, decode_at,
}
use zgcmaster.RawStrings.Walk.{walk_klass, recheck}

-- `offset < at + n && at < offset + size`.
abbrev pub overlap : ℕ → ℕ → ℕ → ℕ → Bool
overlap offset size at n = ltb offset (at + n) && ltb at (offset + size)

unfoldable pub overlaps_pair : ℕ → ℕ → Pair → Bool → Bool
overlaps_pair offset size p narrow =
    overlap offset size p.offset 32
    || overlap offset size p.target ((if narrow then 16 else 24) + length p.payload)

abbrev pub bad_klass : Bool → ℕ → Bool
bad_klass narrow k = k == 0 || (narrow && ltb u32_max k) || (not narrow && not (k % 8 == 0))

unfoldable pub bad_klasses : Bool → List ℕ → Bool
bad_klasses narrow klasses =
    length klasses == 0 || ltb 64 (length klasses) || any (bad_klass narrow) klasses

abbrev pub node_size : Bindings → ℕ
node_size b = array_base b + 24

-- The words of a node.
abbrev pub stored_hash : Bindings → List ℕ → ℕ
stored_hash b node = word (slice (8 + header_width b) 4 node)

abbrev pub node_klass : Bindings → List ℕ → ℕ
node_klass b node = word (slice 8 (header_width b) node)

abbrev pub raw_key : Bindings → List ℕ → ℕ
raw_key b node = word (slice (array_base b) 8 node)

abbrev pub raw_value : Bindings → List ℕ → ℕ
raw_value b node = word (slice (array_base b + 8) 8 node)

abbrev pub raw_next : Bindings → List ℕ → ℕ
raw_next b node = word (slice (array_base b + 16) 8 node)

pub record Row : Type 0 where
  pub node_offset : ℕ
  pub node_klass : ℕ
  pub key : Pair
  pub value : Pair
  pub hash_model : String
  pub next_raw : ℕ
  pub next_offset : Option ℕ
  pub next_status : String

pub record Progress : Type 0 where
  pub counts : Counts
  pub emitted : ℕ
  pub by_klass : Counts
  pub rows : List Row

abbrev pub count_as : String → Progress → Progress
count_as key s = record s { counts = bump key s.counts }

abbrev pub emit : Row → Progress → Progress
emit row s = record {
  counts = bump "emitted" s.counts;
  emitted = s.emitted + 1;
  by_klass = bump (hex row.node_klass) s.by_klass;
  rows = s.rows ++ row ∷ [];
}

-- `key.computed ^ (key.computed >> 16)`.
abbrev pub spread : ℕ → ℕ
spread computed = bit_xor computed (computed / 2 ^ 16)

unfoldable pub hash_model : ℕ → ℕ → Option String
hash_model stored computed =
    if stored == spread computed
    then some (
        if ltb (spread computed) (2 ^ 31)
        then "hashmap-or-concurrent-compatible"
        else "hashmap-compatible")
    else if stored == spread computed % 2 ^ 31
    then some "concurrent-sign-cleared-compatible"
    else none

-- The String that a word refers to.
unfoldable pub decode_reference : Bindings → List ℕ → ℕ → ℕ → Result Decoded
unfolding aligned_target decode_at
decode_reference b file size raw = elim (aligned_target b.model raw) [
  | some start ↦ decode_at b file size start
  | none ↦ ok (rejected "unresolved-reference")
]

-- `next == Some(offset)`.
abbrev pub is_self : Option ℕ → ℕ → Bool
is_self none offset = false
is_self (some next) offset = next == offset

abbrev pub is_node : Bindings → List ℕ → List ℕ → Bool
is_node b klasses header = mark_ok header && any (λ k. k == node_klass b header) klasses

-- The state of the link at `next`, which is aligned and elsewhere.
unfoldable pub link_state : Bindings → List ℕ → ℕ → List ℕ → ℕ → String
link_state b file size klasses next = elim (read_at file size next (node_size b)) [
  | none ↦ "unresolved-or-other-header"
  | some header ↦
      if is_node b klasses header then "bound-node-prefix" else "unresolved-or-other-header"
]

unfoldable pub next_state : Bindings → List ℕ → ℕ → List ℕ → ℕ → ℕ → String
unfolding link_state aligned_target
next_state b file size klasses offset raw =
    if is_null b.model raw
    then "null"
    else if is_self (target b.model raw) offset
    then "self-reference"
    else elim (aligned_target b.model raw) [
      | none ↦ "unresolved"
      | some next ↦ link_state b file size klasses next
    ]

abbrev pub bad_pair : Bindings → ℕ → Pair → Bool
bad_pair b offset p = p.status is "mismatch" || overlaps_pair offset (node_size b) p b.narrow

abbrev pub unhashed : Bool → Pair → Pair → Bool
unhashed require_hash key value =
    require_hash && (key.status is "not-cached" || value.status is "not-cached")

module _ (b : Bindings) (file : List ℕ) (klasses : List ℕ) (require_hash : Bool) (offset : ℕ)
    (node : List ℕ) (size : ℕ) where
  abbrev pub made_row : Pair → String → Pair → Row
  made_row key model value = record {
    node_offset = offset;
    node_klass = node_klass b node;
    key = key;
    value = value;
    hash_model = model;
    next_raw = raw_next b node;
    next_offset = target b.model (raw_next b node);
    next_status = next_state b file size klasses offset (raw_next b node);
  }

  unfoldable pub on_value : Pair → String → Decoded → Progress → Progress
  unfolding next_state overlaps_pair
  on_value key model (rejected reason) s = count_as (join "value-" reason) s
  on_value key model (pair value) s =
      if bad_pair b offset value
      then count_as "value-hash-or-overlap-invalid" s
      else if unhashed require_hash key value
      then count_as "skipped-unhashed-pair" s
      else emit (made_row key model value) s

  unfoldable pub on_model : Pair → String → Progress → Result Progress
  unfolding on_value decode_reference
  on_model key model s =
      if is_null b.model (raw_value b node)
      then ok (count_as "null-value" s)
      else (decode_reference b file size (raw_value b node) >>= λ value.
          ok (on_value key model value s))

  unfoldable pub on_key : Decoded → Progress → Result Progress
  unfolding on_model overlaps_pair hash_model
  on_key (rejected reason) s = ok (count_as (join "key-" reason) s)
  on_key (pair key) s =
      if bad_pair b offset key
      then ok (count_as "key-hash-or-overlap-invalid" s)
      else elim (hash_model (stored_hash b node) key.computed) [
        | none ↦ ok (count_as "node-spread-hash-mismatch" s)
        | some model ↦ on_model key model s
      ]

  -- The callback of the walk.
  unfoldable pub on_node : Progress → Result Progress
  unfolding on_key decode_reference
  on_node s = decode_reference b file size (raw_key b node) >>= λ key. on_key key s

pub record Report : Type 0 where
  pub hash : String
  pub bytes : ℕ
  pub klasses : List ℕ
  pub header_candidates : ℕ
  pub progress : Progress

abbrev pub no_progress : Progress
no_progress = record { counts = []; emitted = 0; by_klass = []; rows = [] }

module _ (d : Digest) (file later : List ℕ) (b : Bindings) (require_hash : Bool) where
  -- The walk over the nodes of some identities, and the second reading of the capture, `later`.
  unfoldable pub report_nodes : List ℕ → Result Report
  unfolding walk_klass on_node recheck
  report_nodes klasses =
      walk_klass d (header_width b) klasses (node_size b) (on_node b file klasses require_hash) file
        no_progress
      >>= λ w.
          recheck d later w.size w.hash
          >> ok (record {
            hash = w.hash;
            bytes = w.size;
            klasses = klasses;
            header_candidates = w.count;
            progress = w.state;
          })

  -- `dictionaries`.
  unfoldable pub dictionaries : List ℕ → Result Report
  unfolding set_of bad_klasses report_nodes
  dictionaries node_klasses =
      let klasses = set_of node_klasses in
      refuse_if (bad_klasses b.narrow klasses)
        "Supply 1..64 valid --node-klass IDs for this header width"
      >> report_nodes klasses
