-- ===== src/Dictionaries/Counted.antt =====
-- The visit of a node (src/dictionaries.rs): it is counted once, and a row of it holds.
use zgcmaster.Prelude.{
  ◌&&◌, ◌||◌, ℕ, ◌+◌, ◌%◌, ◌≤◌, ◌≡◌, refl, subst, inl, inr, Bool, true, false, String, join, some,
  List, [], ◌∷◌, length, slice, length-append, AllOf-append, if◌then◌else◌, Result, ok, ◌>>=◌,
  >>=-eq-ok, ok-injective, Bool-cases, Option-cases, arith,
}
use zgcmaster.Words.Hex.{hex}
use zgcmaster.Dict.Laws.{total-bump}
use zgcmaster.Address.{target, is_null}
use zgcmaster.RawStrings.{Bindings, Pair, Decoded, pair, rejected, header_width}
use zgcmaster.RawStrings.Sound.{IsDecoded}
use zgcmaster.RawStrings.Walk.{walk_header, is_wanted}
use zgcmaster.Dictionaries.{
  Row, Progress, count_as, emit, node_size, stored_hash, raw_key, raw_value, hash_model,
  overlaps_pair, decode_reference, made_row, bad_pair, unhashed, on_value, on_model, on_key,
  on_node,
}
use zgcmaster.Dictionaries.Entries.{
  IsReferred, HasSpread, IsEntry, IsProgress, decode_reference-eq, hash_model-HasSpread,
}

module _ (b : Bindings) (file klasses : List ℕ) (require_hash : Bool) where
  counted-IsProgress :
      (count : ℕ) (key : String) (s : Progress)
      → IsProgress b file klasses require_hash count s
      → IsProgress b file klasses require_hash (count + 1) (count_as key s)
  counted-IsProgress count key s i =
      let t = total-bump key s.counts in
      record {
        rows = i.rows;
        listed = i.listed;
        by_klass = i.by_klass;
        counted = omega (arith, i.counted, t);
        few = omega (arith, i.few);
      }

  emitted-IsProgress :
      (count : ℕ) (row : Row) (s : Progress)
      → IsEntry b file klasses require_hash row
      → IsProgress b file klasses require_hash count s
      → IsProgress b file klasses require_hash (count + 1) (emit row s)
  emitted-IsProgress count row s e i =
      let t = total-bump "emitted" s.counts in
      let u = total-bump (hex row.node_klass) s.by_klass in
      record {
        rows = AllOf-append _ s.rows row i.rows e;
        listed = omega (arith, length-append s.rows (row ∷ []), i.listed);
        by_klass = omega (arith, i.by_klass, u);
        counted = omega (arith, i.counted, t);
        few = omega (arith, i.few);
      }

  module _ (offset count : ℕ) (s : Progress)
      (i : IsProgress b file klasses require_hash count s) where
    abbrev node : List ℕ
    node = slice offset (node_size b) file

    abbrev Advanced : Result Progress → Type 0
    Advanced r = (s' : Progress) → r ≡ ok s' → IsProgress b file klasses require_hash (count + 1) s'

    skip-Advanced : (key : String) → Advanced (ok (count_as key s))
    skip-Advanced key s' h =
        subst (IsProgress b file klasses require_hash (count + 1)) (ok-injective h)
          (counted-IsProgress count key s i)

    -- A test that refuses a node, and what follows it.
    if-Advanced :
        (test : Bool) (key : String) (rest : Result Progress)
        → (test ≡ false → Advanced rest)
        → Advanced (if test then ok (count_as key s) else rest)
    if-Advanced true key rest h = skip-Advanced key
    if-Advanced false key rest h = h refl

    bad_pair-IsReferred :
        (raw : ℕ) (p : Pair)
        → target b.model raw ≡ some p.offset
        → IsDecoded b file (length file) p.offset (slice p.offset 32 file) p
        → bad_pair b offset p ≡ false
        → IsReferred b file offset raw p
    unfolding overlaps_pair
    bad_pair-IsReferred raw p resolved d good = record {
      resolved = resolved;
      decoded = d;
      no_mismatch = ground arith;
      string_apart = ground arith;
      array_apart = ground arith;
    }

    module _ (room : offset + node_size b ≤ length file) (even : offset % 8 ≡ 0)
        (wanted : is_wanted (header_width b) klasses node ≡ true) where
      on_value-Advanced :
          (key : Pair) (model : String) (decoded : Decoded)
          → IsReferred b file offset (raw_key b node) key
          → HasSpread (stored_hash b node) key.computed
          → is_null b.model (raw_value b node) ≡ false
          → decode_reference b file (length file) (raw_value b node) ≡ ok decoded
          → Advanced (
              ok (
                on_value b file klasses require_hash offset node (length file) key model decoded s))
      unfolding on_value
      on_value-Advanced key model (rejected reason) k hashed full e =
          skip-Advanced (join "value-" reason)
      on_value-Advanced key model (pair value) k hashed full e =
          elim (Bool-cases (bad_pair b offset value)) [
            | inl bad ↦ rw bad (skip-Advanced "value-hash-or-overlap-invalid")
            | inr good ↦ rw good (elim (Bool-cases (unhashed require_hash key value)) [
              | inl bare ↦ rw bare (skip-Advanced "skipped-unhashed-pair")
              | inr filtered ↦ rw filtered λ s' h.
                  subst (IsProgress b file klasses require_hash (count + 1)) (ok-injective h) (
                    emitted-IsProgress count
                      (made_row b file klasses require_hash offset node (length file) key model
                        value)
                      s
                      (record {
                        inside = room;
                        even = even;
                        marked = is_marked _ _ wanted;
                        asked = is_asked _ _ wanted;
                        klass = refl;
                        key = k;
                        value =
                            bad_pair-IsReferred (raw_value b node) value
                              (decode_reference-eq b file (raw_value b node) value e).0
                              (decode_reference-eq b file (raw_value b node) value e).1 good;
                        not_null = full;
                        hashed = hashed;
                        key_filtered = λ on. kept require_hash _ _ filtered on;
                        value_filtered = λ on. kept' require_hash _ _ filtered on;
                        next = refl;
                      })
                      i)
            ])
          ]
        where
          is_asked : (a m : Bool) → a && m ≡ true → a ≡ true
          is_asked a m e = ground arith

          is_marked : (a m : Bool) → a && m ≡ true → m ≡ true
          is_marked a m e = ground arith

          kept : (r k v : Bool) → r && (k || v) ≡ false → r ≡ true → k ≡ false
          kept r k v e on = ground (arith, e, on)

          kept' : (r k v : Bool) → r && (k || v) ≡ false → r ≡ true → v ≡ false
          kept' r k v e on = ground (arith, e, on)

      on_model-Advanced :
          (key : Pair) (model : String)
          → IsReferred b file offset (raw_key b node) key
          → HasSpread (stored_hash b node) key.computed
          → Advanced (on_model b file klasses require_hash offset node (length file) key model s)
      unfolding on_model
      on_model-Advanced key model k hashed =
          if-Advanced (is_null b.model (raw_value b node)) "null-value"
            (decode_reference b file (length file) (raw_value b node) >>= λ value.
              ok (on_value b file klasses require_hash offset node (length file) key model value s))
            λ full s' h.
              let (decoded, e, made) =
                >>=-eq-ok (decode_reference b file (length file) (raw_value b node))
                  (λ value. ok (
                    on_value b file klasses require_hash offset node (length file) key model value
                      s))
                  h in
              on_value-Advanced key model decoded k hashed full e s' made

      on_key-Advanced :
          (decoded : Decoded)
          → decode_reference b file (length file) (raw_key b node) ≡ ok decoded
          → Advanced (on_key b file klasses require_hash offset node (length file) decoded s)
      unfolding on_key
      on_key-Advanced (rejected reason) e = skip-Advanced (join "key-" reason)
      on_key-Advanced (pair key) e =
          if-Advanced (bad_pair b offset key) "key-hash-or-overlap-invalid" _ λ good.
            let (resolved, d) = decode_reference-eq b file (raw_key b node) key e in
            let k = bad_pair-IsReferred (raw_key b node) key resolved d good in
            elim (Option-cases (hash_model (stored_hash b node) key.computed)) [
              | inl none_fits ↦ rw none_fits (skip-Advanced "node-spread-hash-mismatch")
              | inr (model, fits) ↦ rw fits (
                  on_model-Advanced key model k
                    (hash_model-HasSpread (stored_hash b node) key.computed model fits))
            ]

      on_node-Advanced : Advanced (on_node b file klasses require_hash offset node (length file) s)
      unfolding on_node
      on_node-Advanced s' h =
          let (decoded, e, made) =
            >>=-eq-ok (decode_reference b file (length file) (raw_key b node))
              (λ key. on_key b file klasses require_hash offset node (length file) key s) h in
          on_key-Advanced decoded e s' made

  pub walk_header-IsProgress :
      (offset : ℕ) (w w' : ℕ × Progress)
      → IsProgress b file klasses require_hash w.0 w.1
      → offset % 8 ≡ 0
      → offset + node_size b ≤ length file
      → walk_header
          (header_width b)
          klasses
          (length file)
          (on_node b file klasses require_hash)
          offset
          (slice offset (node_size b) file)
          w
        ≡ ok w'
      → IsProgress b file klasses require_hash w'.0 w'.1
  unfolding walk_header
  walk_header-IsProgress offset (count, s) w' i even room h =
      let header : List ℕ = slice offset (node_size b) file in
      elim (Bool-cases (is_wanted (header_width b) klasses header)) [
        | inr other ↦
            subst (λ (x : ℕ × Progress). IsProgress b file klasses require_hash x.0 x.1)
              (ok-injective (rw other at h)) i
        | inl wanted ↦
            let (s', e, made) =
              >>=-eq-ok (on_node b file klasses require_hash offset header (length file) s)
                (λ s'. ok (count + 1, s')) (rw wanted at h) in
            subst (λ (x : ℕ × Progress). IsProgress b file klasses require_hash x.0 x.1)
              (ok-injective made) (on_node-Advanced offset count s i room even wanted s' e)
      ]
