-- ===== src/Discovery/Keys.antt =====
-- What stands behind the node proposals of src/discovery/nodes.rs, and behind a whole discovery.
use zgcmaster.Prelude.{
  ℕ, ◌/◌, ◌⊎◌, bit_xor, ◌+◌, ◌^◌, ◌≤◌, ◌≡◌, refl, sym, ap, ◌∙◌, subst, Bool, true, false, ◌||◌, not,
  Option, none, some, List, [], ◌∷◌, length, slice, leb, ◌==◌, ◌is◌, is_some, AllOf, Result, ok,
  >>=-eq-ok, ok-injective, Bool-cases, Option-cases, inl, inr, arith,
}
use zgcmaster.Sets.Laws.{IsAscending, insert_set-IsAscending, length-insert_set, insert_set-AllOf}
use zgcmaster.Dict.Laws.{length-insert}
use zgcmaster.Digest.{Digest, hash_of}
use zgcmaster.Address.{target, is_null}
use zgcmaster.Scan.{Index}
use zgcmaster.RawStrings.{
  mark_ok, Bindings, Pair, Decoded, pair, rejected, aligned_target, decode_at,
}
use zgcmaster.RawStrings.Sound.{
  klass_size, payload_start, IsDecoded, decode_at-IsDecoded, aligned_target-eq,
}
use zgcmaster.Dictionaries.{node_size, stored_hash, raw_key, raw_value, raw_next, spread}
use zgcmaster.Words.{word}
use zgcmaster.Dictionaries.Entries.{node_at, class_word, key_word}
use zgcmaster.Discovery.{read_at}
use zgcmaster.Discovery.Matches.{read_at-eq}
use zgcmaster.Discovery.Nodes.{
  Samples, Value, no_value, add_reads, bit, add_match, is_value, add_value, sample_value,
  link_target, is_other, sample_next, bad_key, sample_key, sample_node, sample_offsets,
}

-- A String that is the key of a node: the node's header is of the identity, its stored hash is the
-- spread of the hash that the String keeps, and the two are apart.
pub record IsKey (file : List ℕ) (b : Bindings) (klass key_offset : ℕ) : Type 0 where
  pub node_offset : ℕ
  pub key : Pair
  pub at_key : key.offset ≡ key_offset
  pub inside : node_offset + (payload_start b + 24) ≤ length file
  pub marked : mark_ok (node_at b file node_offset) ≡ true
  pub class : class_word b (node_at b file node_offset) ≡ klass
  pub resolved : target b.model (key_word b (node_at b file node_offset)) ≡ some key_offset
  pub decoded : IsDecoded b file (length file) key_offset (slice key_offset 32 file) key
  pub status : key.status is "match" ≡ true
  pub hashed :
      word (slice (8 + klass_size b) 4 (node_at b file node_offset))
      ≡ bit_xor key.computed (key.computed / 2 ^ 16)
  pub string_apart :
      (node_offset + (payload_start b + 24) ≤ key_offset) ⊎ (key_offset + 32 ≤ node_offset)
  pub array_apart :
      (node_offset + (payload_start b + 24) ≤ key.target)
      ⊎ (key.target + (payload_start b + length key.payload) ≤ node_offset)

-- The counts of the samples of a group, and its keys.
pub record IsSamples (file : List ℕ) (b : Bindings) (klass : ℕ) (s : Samples) : Type 0 where
  pub keys : AllOf (IsKey file b klass) s.keys
  pub distinct : IsAscending 0 s.keys
  pub few_keys : length s.keys ≤ s.matches
  pub few_payloads : length s.payloads ≤ s.matches
  pub few_links : s.linked ≤ s.matches
  pub few_negative : s.negative_hashes ≤ s.matches
  pub few_values : (s.hashed_values ≤ s.string_values) × (s.string_values ≤ s.matches)

module _ (d : Digest) (file : List ℕ) (index : Index) (b : Bindings) (klass : ℕ)
    (whole : length file ≡ index.heap_bytes) where
  add_reads-IsSamples :
      (n : ℕ) (s : Samples) → IsSamples file b klass s → IsSamples file b klass (add_reads n s)
  add_reads-IsSamples n s i = record {
    keys = i.keys;
    distinct = i.distinct;
    few_keys = i.few_keys;
    few_payloads = i.few_payloads;
    few_links = i.few_links;
    few_negative = i.few_negative;
    few_values = i.few_values;
  }

  abbrev Goes : Result Samples → Type 0
  Goes r = (s' : Samples) → r ≡ ok s' → IsSamples file b klass s'

  stays-Goes : (s : Samples) → IsSamples file b klass s → Goes (ok s)
  stays-Goes s i s' h = subst (IsSamples file b klass) (ok-injective h) i

  at_most_one : (t : Bool) → bit t ≤ 1
  at_most_one true = omega arith
  at_most_one false = omega arith

  -- Samples with the value of one more match counted.
  record IsBefore (s : Samples) : Type 0 where
    keys : AllOf (IsKey file b klass) s.keys
    distinct : IsAscending 0 s.keys
    few_keys : length s.keys ≤ s.matches
    few_payloads : length s.payloads ≤ s.matches
    few_links : s.linked ≤ s.matches
    few_negative : s.negative_hashes ≤ s.matches
    few_values : (s.hashed_values ≤ s.string_values) × (s.string_values ≤ s.matches + 1)

  IsSamples-IsBefore :
      (s : Samples) (v w : ℕ)
      → w ≤ v
      → v ≤ 1
      → IsSamples file b klass s
      → IsBefore
          (record s { string_values = s.string_values + v; hashed_values = s.hashed_values + w })
  IsSamples-IsBefore s v w less one i = record {
    keys = i.keys;
    distinct = i.distinct;
    few_keys = i.few_keys;
    few_payloads = i.few_payloads;
    few_links = i.few_links;
    few_negative = i.few_negative;
    few_values = (omega (arith, i.few_values.0), omega (arith, i.few_values.1));
  }

  no_value-IsBefore : (s : Samples) → IsSamples file b klass s → IsBefore s
  no_value-IsBefore s i = record {
    keys = i.keys;
    distinct = i.distinct;
    few_keys = i.few_keys;
    few_payloads = i.few_payloads;
    few_links = i.few_links;
    few_negative = i.few_negative;
    few_values = (i.few_values.0, omega (arith, i.few_values.1));
  }

  module _ (offset : ℕ) (node : List ℕ) where
    add_match-IsSamples :
        (key : Pair) (value : Value) (next : Option ℕ) (s : Samples)
        → IsKey file b klass key.offset
        → IsBefore s
        → IsSamples file b klass (add_match d file index b klass offset node key value next s)
    unfolding add_match
    add_match-IsSamples key value next s k i = record {
      keys = insert_set-AllOf _ key.offset s.keys k i.keys;
      distinct = insert_set-IsAscending 0 key.offset s.keys (omega arith) i.distinct;
      few_keys = omega (arith, i.few_keys, length-insert_set key.offset s.keys);
      few_payloads =
          omega (arith, i.few_payloads, length-insert (hash_of d key.payload) tt s.payloads);
      few_links = omega (arith, i.few_links, at_most_one (is_some next));
      few_negative = omega (arith, i.few_negative, at_most_one (leb (2 ^ 31) (stored_hash b node)));
      few_values = (i.few_values.0, i.few_values.1);
    }

    add_value-IsSamples :
        (key : Pair) (next : Option ℕ) (decoded : Decoded) (s : Samples)
        → IsKey file b klass key.offset
        → IsSamples file b klass s
        → IsSamples file b klass (add_value d file index b klass offset node key next decoded s)
    unfolding add_value
    add_value-IsSamples key next (rejected reason) s k i =
        add_match-IsSamples key no_value next s k (no_value-IsBefore s i)
    add_value-IsSamples key next (pair value) s k i =
        elim (Bool-cases (is_value d file index b klass offset node value)) [
          | inl good ↦ rw good (
              add_match-IsSamples key _ next _ k (
                IsSamples-IsBefore s 1
                  (bit (value.status is "match" || value.status is "zero-hash-match"))
                  (at_most_one _) (omega arith) i))
          | inr bad ↦ rw bad (add_match-IsSamples key no_value next s k (no_value-IsBefore s i))
        ]

    sample_value-Goes :
        (key : Pair) (next : Option ℕ) (s : Samples)
        → IsKey file b klass key.offset
        → IsSamples file b klass s
        → Goes (sample_value d file index b klass offset node key next s)
    unfolding sample_value
    sample_value-Goes key next s k i =
        elim (Option-cases (aligned_target b.model (raw_value b node))) [
          | inl missing ↦
              rw (sample_value, missing)
                (stays-Goes _ (add_match-IsSamples key no_value next s k (no_value-IsBefore s i)))
          | inr (start, found) ↦
              rw (sample_value, found)
                λ s' h.
                  let (decoded, read, made) =
                    >>=-eq-ok (decode_at b file index.heap_bytes start)
                      (λ value.
                        ok (
                          add_value d file index b klass offset node key next value
                            (add_reads 3 s)))
                      h in
                  subst (IsSamples file b klass) (ok-injective made) (
                    add_value-IsSamples key next decoded (add_reads 3 s) k
                      (add_reads-IsSamples 3 s i))
        ]

    sample_next-Goes :
        (key : Pair) (s : Samples)
        → IsKey file b klass key.offset
        → IsSamples file b klass s
        → Goes (sample_next d file index b klass offset node key s)
    unfolding sample_next
    sample_next-Goes key s k i =
        let one = add_reads-IsSamples 1 s i in
        elim (Bool-cases (is_null b.model (raw_next b node))) [
          | inl null ↦ rw null (sample_value-Goes key none s k i)
          | inr link ↦ rw link (elim (Option-cases (link_target d file index b klass offset node)) [
            | inl missing ↦ rw missing (stays-Goes s i)
            | inr (next, found) ↦
                rw found (elim (Option-cases (read_at file index.heap_bytes next (node_size b))) [
                  | inl past ↦ rw past (stays-Goes _ one)
                  | inr (header, read) ↦ rw read (elim (Bool-cases (is_other b klass header)) [
                    | inl other ↦ rw other (stays-Goes _ one)
                    | inr same ↦ rw same (sample_value-Goes key (some next) (add_reads 1 s) k one)
                  ])
                ])
          ])
        ]

    module _ (same_node : node ≡ slice offset (node_size b) file)
        (inside : offset + node_size b ≤ length file) where
      key-IsKey :
          (key : Pair) (start : ℕ)
          → aligned_target b.model (raw_key b node) ≡ some start
          → decode_at b file index.heap_bytes start ≡ ok (pair key)
          → is_other b klass node ≡ false
          → bad_key b offset node key ≡ false
          → IsKey file b klass key.offset
      key-IsKey key start found read named good =
          let dec = decode_at-IsDecoded b file index.heap_bytes start key whole read in
          let (status, hashed, apart) = parts (key.status is "match") _ _ _ good in
          record {
            node_offset = offset;
            key = key;
            at_key = refl;
            inside = inside;
            marked = is_marked _ _ _ (subst (λ n. is_other b klass n ≡ false) same_node named);
            class = is_class _ _ _ (subst (λ n. is_other b klass n ≡ false) same_node named);
            resolved =
                subst (λ n. target b.model (raw_key b n) ≡ some key.offset) same_node
                  ((aligned_target-eq b (raw_key b node) start found).0
                    ∙ ap some (sym dec.at_offset));
            decoded =
                subst (λ k. IsDecoded b file (length file) k (slice k 32 file) key)
                  (sym dec.at_offset)
                  (subst (λ n. IsDecoded b file n start (slice start 32 file) key) (sym whole) dec);
            status = status;
            hashed = subst (λ n. stored_hash b n ≡ spread key.computed) same_node hashed;
            string_apart = ground (arith, apart);
            array_apart = ground (arith, apart);
          }
        where
          is_marked : (m : Bool) (k n : ℕ) → not m || not (k == n) ≡ false → m ≡ true
          is_marked m k n e = ground arith

          is_class : (m : Bool) (k n : ℕ) → not m || not (k == n) ≡ false → k ≡ n
          is_class m k n e = ground arith

          parts :
              (m : Bool) (x y : ℕ) (t : Bool)
              → not m || not (x == y) || t ≡ false
              → (m ≡ true) × (x ≡ y) × (t ≡ false)
          parts m x y t e = (ground arith, ground arith, ground arith)

      sample_node-Goes :
          (s : Samples)
          → IsSamples file b klass s
          → Goes (sample_node d file index b klass offset node s)
      unfolding sample_node sample_key
      sample_node-Goes s i = elim (Bool-cases (is_other b klass node)) [
        | inl other ↦ rw other (stays-Goes s i)
        | inr named ↦ rw named (elim (Option-cases (aligned_target b.model (raw_key b node))) [
          | inl missing ↦ rw missing (stays-Goes s i)
          | inr (start, found) ↦ rw found λ s' h.
              let (decoded, read, made) =
                >>=-eq-ok (decode_at b file index.heap_bytes start)
                  (λ key. sample_key d file index b klass offset node key (add_reads 3 s)) h in
              of_key start named found decoded read s' made
        ])
      ]
        where
          of_key :
              (start : ℕ)
              → is_other b klass node ≡ false
              → aligned_target b.model (raw_key b node) ≡ some start
              → (decoded : Decoded) → decode_at b file index.heap_bytes start ≡ ok decoded
              → Goes (sample_key d file index b klass offset node decoded (add_reads 3 s))
          of_key start named found (rejected reason) read =
              stays-Goes (add_reads 3 s) (add_reads-IsSamples 3 s i)
          of_key start named found (pair key) read = elim (Bool-cases (bad_key b offset node key)) [
            | inl bad ↦ rw bad (stays-Goes (add_reads 3 s) (add_reads-IsSamples 3 s i))
            | inr good ↦ rw good (
                sample_next-Goes key (add_reads 3 s) (key-IsKey key start found read named good)
                  (add_reads-IsSamples 3 s i))
          ]

  pub sample_offsets-IsSamples :
      (offsets : List ℕ) (s s' : Samples)
      → IsSamples file b klass s
      → sample_offsets d file index b klass offsets s ≡ ok s'
      → IsSamples file b klass s'
  unfolding sample_offsets
  sample_offsets-IsSamples [] s s' i h = stays-Goes s i s' h
  sample_offsets-IsSamples (offset ∷ offsets) s s' i h =
      let counted : Samples = record s { checked = s.checked + 1; reads = s.reads + 1 } in
      let j : IsSamples file b klass counted = record {
        keys = i.keys;
        distinct = i.distinct;
        few_keys = i.few_keys;
        few_payloads = i.few_payloads;
        few_links = i.few_links;
        few_negative = i.few_negative;
        few_values = i.few_values;
      } in
      let (t, here, rest) =
        >>=-eq-ok
          (elim (read_at file index.heap_bytes offset (node_size b)) [
            | none ↦ ok counted
            | some node ↦ sample_node d file index b klass offset node counted
          ])
          (sample_offsets d file index b klass offsets) h in
      sample_offsets-IsSamples offsets t s' (one offset counted j t here) rest
    where
      one :
          (offset : ℕ) (counted : Samples)
          → IsSamples file b klass counted
          → Goes (elim (read_at file index.heap_bytes offset (node_size b)) [
            | none ↦ ok counted
            | some node ↦ sample_node d file index b klass offset node counted
          ])
      one offset counted j =
          elim (Option-cases (read_at file index.heap_bytes offset (node_size b))) [
            | inl past ↦ rw past (stays-Goes counted j)
            | inr (node, read) ↦
                let (bytes, fits) =
                  read_at-eq file index.heap_bytes offset (node_size b) node read in
                rw read (
                  sample_node-Goes offset node bytes
                    (subst (λ n. offset + node_size b ≤ n) (sym whole) fits) counted j)
          ]
