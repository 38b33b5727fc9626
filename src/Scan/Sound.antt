-- ===== src/Scan/Sound.antt =====
-- The headline facts of `scan_with`.
use zgcmaster.Prelude.{
  ℕ, ◌+◌, ◌*◌, ◌/◌, ◌%◌, ◌≤◌, Bool, true, false, Option, String, List, [], length, ok, ◌≡◌, refl,
  sym, ap, ◌∙◌, subst, arith, ok-injective,
}
use zgcmaster.Dict.{total}
use zgcmaster.Layout.{Layout}
use zgcmaster.Maps.{Mapping}
use zgcmaster.Digest.{Digest, hash_of}
use zgcmaster.Walk.{single_pass}
use zgcmaster.Walk.SinglePass.{single_pass_inv}
use zgcmaster.Scan.{
  Bound, Config, Header, Object, Index, ScanOptions, Scanned, max_objects, scan_with, zeros_in,
  config_of, width_of, length_at, read_header, visit, start_state, table_of,
}
use zgcmaster.Scan.Visit.{Announces, new_object}
use zgcmaster.Scan.Facts.{ScanFacts, scan_with-ScanFacts}
use zgcmaster.Scan.Objects.{
  AllObjects, AllObjects-map, IsAscending, IsSound, IsSound-weaken, visit-IsSound,
}
use zgcmaster.Scan.Exact.{IsAnnounced, HasObject, is_selected, pass-IsAnnounced, pass-IsComplete}

pub record InCapture (size : ℕ) (o : Object) : Type 0 where
  pub aligned : o.offset % 8 ≡ 0
  pub inside : o.offset + o.size ≤ size

-- What an index says of the capture that it was made from.
pub record IsSoundIndex (d : Digest) (heap : List ℕ) (index : Index) : Type 0 where
  pub hash : index.heap_sha256 ≡ hash_of d heap
  pub size : index.heap_bytes ≡ length heap
  pub zeros : index.zero_bytes ≡ zeros_in heap
  pub ascending : IsAscending 0 index.objects
  pub placed : AllObjects (InCapture (length heap)) index.objects
  pub bounded : length index.objects ≤ max_objects
  pub counted : index.streamed ≡ false → total index.class_counts ≡ length index.objects
  pub kept_or_streamed : index.streamed ≡ true → index.objects ≡ []

module _ (d : Digest) (heap : List ℕ) (layout : Option Layout) (mappings : List Mapping)
    (options : ScanOptions) (streaming : Bool) (expected : Option String) (out : Scanned)
    (scanned : scan_with d heap layout mappings options streaming expected ≡ ok out) where
  facts : ScanFacts d heap layout mappings options streaming expected out
  facts = scan_with-ScanFacts d heap layout mappings options streaming expected out scanned

  state-IsSound :
      IsSound
        (config_of d options streaming (length heap) facts.table)
        (0 + 8 * ((length heap + 7) / 8))
        facts.state
  state-IsSound =
      single_pass_inv 16 (read_header (width_of layout) (length_at layout))
        (visit (config_of d options streaming (length heap) facts.table)) heap (length heap)
        (IsSound (config_of d options streaming (length heap) facts.table))
        (λ o o' s le why h. IsSound-weaken _ o o' s le h)
        (λ o s s' h even room e. visit-IsSound _ o _ s s' h even e) ((length heap + 7) / 8) 0
        start_state facts.state refl
        (record {
          ascending = tt;
          placed = tt;
          bounded = omega arith;
          counted = unfold total in omega arith;
          spaced = unfold total in omega arith;
          streamed_only = λ on. refl;
          kept_only = λ off. refl;
        })
        facts.pass

  -- A scan that succeeds gives the hash, the size and the number of zero bytes of the capture; its
  -- objects are at strictly ascending multiples of 8, each inside the capture, at most two million,
  -- and counted once in the class counts; a streaming scan keeps none.
  pub scan_with-IsSoundIndex : IsSoundIndex d heap out.index
  scan_with-IsSoundIndex =
      let i = state-IsSound in
      subst (IsSoundIndex d heap) (sym facts.index_is) (record {
        hash = refl;
        size = refl;
        zeros = refl;
        ascending = i.ascending;
        placed =
            AllObjects-map facts.state.objects
              (λ o p. record { aligned = p.aligned; inside = p.inside }) i.placed;
        bounded = i.bounded;
        counted = λ off. omega (arith, i.counted, ap length (i.kept_only off));
        kept_or_streamed = λ on. i.streamed_only on;
      })

  module _ (table : List Bound) where
    abbrev pub config : Config
    config = config_of d options streaming (length heap) table

    abbrev pub header_of : ℕ → Header
    header_of offset = read_header (width_of layout) (length_at layout) heap (length heap) offset

    -- The objects of a scan that keeps them are exactly those that the capture announces: each
    -- stands at an offset whose header is plausible, carries the identity of a bound class, and
    -- gives a size inside the capture; and no such header of a selected class at a multiple of 8 is
    -- missing.
    pub scan_with-exact :
        table_of layout ≡ ok table
        → streaming ≡ false
        → AllObjects
            (IsAnnounced config (width_of layout) (length_at layout) heap)
            out.index.objects
          × ((offset : ℕ) (b : Bound) (n : ℕ)
              → offset % 8 ≡ 0
              → offset + 16 ≤ length heap
              → Announces config b offset (header_of offset) n
              → is_selected config b ≡ true
              → HasObject (new_object b offset (header_of offset) n) out.index.objects)
    scan_with-exact bound off =
        let t : facts.table ≡ table = ok-injective (sym facts.bound ∙ bound) in
        let pass =
          subst
            (λ u.
              single_pass 16 (read_header (width_of layout) (length_at layout))
                (visit (config_of d options streaming (length heap) u)) heap (length heap)
                ((length heap + 7) / 8) 0 start_state
              ≡ ok facts.state)
            t facts.pass in
        let e = ap (λ (x : Index). x.objects) facts.index_is in
        (
          subst (AllObjects (IsAnnounced config (width_of layout) (length_at layout) heap)) (sym e)
              (pass-IsAnnounced config (width_of layout) (length_at layout) heap _ facts.state
                pass),
          λ offset b n even room a selected. subst (HasObject _) (sym e) (
              pass-IsComplete config (width_of layout) (length_at layout) heap _ facts.state pass
                off (omega arith) offset b n even (omega arith) room a selected),
        )
