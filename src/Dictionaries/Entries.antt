-- ===== src/Dictionaries/Entries.antt =====
-- The rows of `dictionaries` (src/dictionaries.rs): what each says of its node, and the counts.
use zgcmaster.Prelude.{
  ℕ, any, bit_xor, ◌/◌, ◌+◌, ◌%◌, ◌^◌, ◌≤◌, ◌≡◌, refl, sym, ap, ◌∙◌, subst, ◌⊎◌, inl, inr, Bool,
  true, false, String, Option, none, some, List, length, slice, AllOf, ◌==◌, ◌is◌, Result, ok,
  Bool-cases, Option-cases, arith,
}
use zgcmaster.Dict.{total}
use zgcmaster.Words.{word}
use zgcmaster.Address.{target, is_null}
use zgcmaster.RawStrings.{mark_ok, Bindings, Pair, Decoded, pair, rejected, aligned_target}
use zgcmaster.RawStrings.Sound.{
  klass_size, payload_start, IsDecoded, decode_at-IsDecoded, aligned_target-eq,
}
use zgcmaster.Dictionaries.{
  Row, Progress, raw_next, spread, hash_model, decode_reference, next_state,
}

-- A String that the word `raw` of the node at `offset` refers to: the bytes hold it, apart from the
-- node, and its cached hash does not contradict it.
pub record IsReferred (b : Bindings) (file : List ℕ) (offset raw : ℕ) (p : Pair) : Type 0 where
  pub resolved : target b.model raw ≡ some p.offset
  pub decoded : IsDecoded b file (length file) p.offset (slice p.offset 32 file) p
  pub no_mismatch : p.status is "mismatch" ≡ false
  pub string_apart : (offset + (payload_start b + 24) ≤ p.offset) ⊎ (p.offset + 32 ≤ offset)
  pub array_apart :
      (offset + (payload_start b + 24) ≤ p.target)
      ⊎ (p.target + (payload_start b + length p.payload) ≤ offset)

-- The hash in the node is the hash of the key with its upper half folded into the lower, or that
-- without its sign.
abbrev pub HasSpread : ℕ → ℕ → Type 0
HasSpread stored computed =
    (stored ≡ bit_xor computed (computed / 2 ^ 16))
    ⊎ (stored ≡ bit_xor computed (computed / 2 ^ 16) % 2 ^ 31)

-- The words of the node at `offset`: its class, and the references to its key and its value.
abbrev pub node_at : Bindings → List ℕ → ℕ → List ℕ
node_at b file offset = slice offset (payload_start b + 24) file

abbrev pub class_word : Bindings → List ℕ → ℕ
class_word b node = word (slice 8 (klass_size b) node)

abbrev pub key_word : Bindings → List ℕ → ℕ
key_word b node = word (slice (payload_start b) 8 node)

abbrev pub value_word : Bindings → List ℕ → ℕ
value_word b node = word (slice (payload_start b + 8) 8 node)

-- A row is a marked node of the capture of one of the classes asked for, with its key and its value,
-- each with a cached hash where that is required.
pub record IsEntry (b : Bindings) (file klasses : List ℕ) (require_hash : Bool) (row : Row)
    : Type 0 where
  pub inside : row.node_offset + (payload_start b + 24) ≤ length file
  pub even : row.node_offset % 8 ≡ 0
  pub marked : mark_ok (node_at b file row.node_offset) ≡ true
  pub asked : any (λ k. k == row.node_klass) klasses ≡ true
  pub klass : row.node_klass ≡ class_word b (node_at b file row.node_offset)
  pub key : IsReferred b file row.node_offset (key_word b (node_at b file row.node_offset)) row.key
  pub value :
      IsReferred b file row.node_offset (value_word b (node_at b file row.node_offset)) row.value
  pub not_null : is_null b.model (value_word b (node_at b file row.node_offset)) ≡ false
  pub hashed :
      HasSpread
        (word (slice (8 + klass_size b) 4 (node_at b file row.node_offset)))
        row.key.computed
  pub key_filtered : require_hash ≡ true → row.key.status is "not-cached" ≡ false
  pub value_filtered : require_hash ≡ true → row.value.status is "not-cached" ≡ false
  pub next :
      row.next_status
      ≡ next_state b file
          (length file)
          klasses
          row.node_offset
          (raw_next b (node_at b file row.node_offset))

-- What the rows and the counts say after `count` nodes: each was counted under one key.
pub record IsProgress (b : Bindings) (file klasses : List ℕ) (require_hash : Bool) (count : ℕ)
    (s : Progress) : Type 0 where
  pub rows : AllOf (IsEntry b file klasses require_hash) s.rows
  pub listed : length s.rows ≡ s.emitted
  pub by_klass : total s.by_klass ≡ s.emitted
  pub counted : total s.counts ≡ count
  pub few : s.emitted ≤ count

pub decode_reference-eq :
    (b : Bindings) (file : List ℕ) (raw : ℕ) (p : Pair)
    → decode_reference b file (length file) raw ≡ ok (pair p)
    → (target b.model raw ≡ some p.offset)
      × IsDecoded b file (length file) p.offset (slice p.offset 32 file) p
unfolding decode_reference
decode_reference-eq b file raw p h = elim (Option-cases (aligned_target b.model raw)) [
  | inl missing ↦ absurd (no_pair (rw (decode_reference, missing) at h))
  | inr (start, found) ↦
      let d =
        decode_at-IsDecoded b file (length file) start p refl (rw (decode_reference, found) at h) in
      (
        (aligned_target-eq b raw start found).0 ∙ ap some (sym d.at_offset),
        subst (λ k. IsDecoded b file (length file) k (slice k 32 file) p) (sym d.at_offset) d,
      )
]
  where
    no_pair : {reason : String} → ◌≡◌ {A = Result Decoded} (ok (rejected reason)) (ok (pair p)) → ⊥
    no_pair e = cc

pub hash_model-HasSpread :
    (stored computed : ℕ) (model : String)
    → hash_model stored computed ≡ some model
    → HasSpread stored computed
unfolding hash_model
hash_model-HasSpread stored computed model h = elim (Bool-cases (stored == spread computed)) [
  | inl same ↦ inl (ground arith)
  | inr other ↦ elim (Bool-cases (stored == spread computed % 2 ^ 31)) [
    | inl cleared ↦ inr (ground arith)
    | inr neither ↦ absurd (no_model (rw (hash_model, other, neither) at h))
  ]
]
  where
    no_model : ◌≡◌ {A = Option String} none (some model) → ⊥
    no_model e = cc
