-- ===== src/Scan/Facts.antt =====
-- What a scan that succeeds has established, in one record: its checks, the single pass that its
-- state comes from, and its index.
use zgcmaster.Prelude.{
  ℕ, ◌+◌, ◌/◌, ◌≤◌, Bool, not, ◌&&◌, Option, none, some, String, List, length, leb, ok, >>=-eq-ok,
  >>-eq-ok, refuse_if-eq-ok, ok-injective, ◌≡◌, refl, sym, ap, ◌∙◌, subst, arith,
}
use zgcmaster.Words.{chunk_size, max_file}
use zgcmaster.Layout.{Layout, klass_width, length_offset}
use zgcmaster.Maps.{Mapping}
use zgcmaster.Digest.{Digest}
use zgcmaster.Walk.{single_pass}
use zgcmaster.Scan.{
  Bound, Config, State, ScanOptions, Scanned, check_layout, check_heap, table_of, width_of,
  length_at, config_of, build_index, check_hash, finish_scan, scan_bound, scan_heap, scan_with,
  scan_loop, read_header, visit, start_state, zeros_in,
}
use zgcmaster.Scan.Chunks.{scan_loop-eq-single_pass}

pub width_of-le : (layout : Option Layout) → width_of layout ≤ 8
width_of-le none = omega arith
width_of-le (some layout) = unfold klass_width in ground arith

pub length_at-le : (layout : Option Layout) → length_at layout ≤ 16
length_at-le none = omega arith
length_at-le (some layout) = unfold length_offset in ground arith

module _ (d : Digest) (heap : List ℕ) (layout : Option Layout) (mappings : List Mapping)
    (options : ScanOptions) (streaming : Bool) (expected : Option String) where
  pub record ScanFacts (out : Scanned) : Type 1 where
    pub layout_checked : check_layout layout options.only ≡ ok tt
    pub small : length heap ≤ max_file
    pub table : List Bound
    pub bound : table_of layout ≡ ok table
    pub state : State
    pub pass :
        single_pass 16
          (read_header (width_of layout) (length_at layout))
          (visit (config_of d options streaming (length heap) table))
          heap
          (length heap)
          ((length heap + 7) / 8)
          0
          start_state
        ≡ ok state
    pub index_is :
        out.index
        ≡ build_index d layout mappings options streaming
            (length heap)
            (zeros_in heap, d.update d.start heap)
            state
    pub hash_checked : check_hash d out.index.heap_sha256 expected ≡ ok tt

  check_heap-small : check_heap heap ≡ ok tt → length heap ≤ max_file
  unfolding check_heap
  check_heap-small h = ground (
    arith,
    refuse_if-eq-ok (not (leb 24 (length heap) && leb (length heap) max_file))
        "Heap size must be 24 bytes..64 GiB" (>>-eq-ok _ _ h).0,
  )

  finish_scan-eq-ok :
      (tallied : ℕ × d.State) (s : State) (out : Scanned)
      → finish_scan d layout mappings options streaming expected (length heap) (tallied, s) ≡ ok out
      → (out.index ≡ build_index d layout mappings options streaming (length heap) tallied s)
        × (check_hash d out.index.heap_sha256 expected ≡ ok tt)
  unfolding finish_scan
  finish_scan-eq-ok tallied s out h =
      let (checked, made) = >>-eq-ok (check_hash d (d.finalize tallied.1) expected) _ h in
      let e = ok-injective made in
      (
        ap (λ (o : Scanned). o.index) (sym e),
        subst (λ (o : Scanned). check_hash d o.index.heap_sha256 expected ≡ ok tt) e checked,
      )

  -- A scan that succeeds has these facts.
  pub scan_with-ScanFacts :
      (out : Scanned)
      → scan_with d heap layout mappings options streaming expected ≡ ok out
      → ScanFacts out
  unfolding scan_with scan_heap scan_bound
  scan_with-ScanFacts out h =
      let (checked, h₁) = >>-eq-ok (check_layout layout options.only) _ h in
      let (sized, h₂) = >>-eq-ok (check_heap heap) _ h₁ in
      let (table, bound, h₃) =
        >>=-eq-ok (table_of layout) (scan_bound d heap layout mappings options streaming expected)
          h₂ in
      let config : Config = config_of d options streaming (length heap) table in
      let ((tallied, s₀), looped, h₄) =
        >>=-eq-ok (scan_loop d chunk_size config (width_of layout) (length_at layout) heap)
          (finish_scan d layout mappings options streaming expected (length heap)) h₃ in
      let (s, pass, e) =
        >>=-eq-ok
          (single_pass 16 (read_header (width_of layout) (length_at layout)) (visit config) heap
            (length heap) ((length heap + 7) / 8) 0 start_state)
          (λ s. ok ((zeros_in heap, d.update d.start heap), s))
          (sym (
              scan_loop-eq-single_pass d 131072 config (width_of layout) (length_at layout) heap
                (omega arith) (width_of-le layout) (length_at-le layout) refl)
            ∙ looped) in
      let f =
        finish_scan-eq-ok (zeros_in heap, d.update d.start heap) s out
          (ap (finish_scan d layout mappings options streaming expected (length heap))
              (ok-injective e)
            ∙ h₄) in
      record {
        layout_checked = checked;
        small = check_heap-small sized;
        table = table;
        bound = bound;
        state = s;
        pass = pass;
        index_is = f.0;
        hash_checked = f.1;
      }
