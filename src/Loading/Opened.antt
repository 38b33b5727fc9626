-- ===== src/Loading/Opened.antt =====
-- Scanning a bundle and opening it again (src/lib.rs).
use zgcmaster.Prelude.{
  ℕ, ◌*◌, Bool, true, false, not, String, Option, none, some, List, length, ◌==◌, ◌≡◌, sym, ap, ◌∙◌,
  Result, ok, refuse_if, >>=-eq-ok, >>-eq-ok, refuse_if-eq-ok, ok-injective, ==_iff, arith,
}
use zgcmaster.Words.{chunk_size}
use zgcmaster.Digest.{Digest, hash_of, verify_digest, verify_digest-eq-ok}
use zgcmaster.Layout.{Layout}
use zgcmaster.Layout.Same.{same_mappings, same_layout-eq, same_mappings-eq}
use zgcmaster.Scan.{Index}
use zgcmaster.Reader.{Reader}
use zgcmaster.Checksums.{Sums, checksums}
use zgcmaster.Loading.Bundles.{Bundle, sum_of, read_maps, is_layout, check_sidecar, open_bundle}
use zgcmaster.Loading.Sealed.{read_bounded-then}

-- An index that opens on a bundle is that of the bundle.
pub record IsOpened (d : Digest) (read_layout : List ℕ → Result Layout) (bundle : Bundle)
    (index : Index) (r : Reader) : Type 0 where
  pub reader : r ≡ record { file = bundle.heap; index = index }
  pub kept : index.streamed ≡ false
  pub layout : Layout
  pub parsed : read_layout bundle.layout ≡ ok layout
  pub with_layout : index.layout ≡ some layout
  pub mapped : read_maps bundle.maps (length bundle.heap) ≡ ok index.mappings
  pub hash : index.heap_sha256 ≡ hash_of d bundle.heap
  pub layout_hash : index.layout_sha256 ≡ some (hash_of d bundle.layout)
  pub maps_hash : index.maps_sha256 ≡ some (hash_of d bundle.maps)
  pub size : index.heap_bytes ≡ length bundle.heap
  pub sums : Sums
  pub read : checksums bundle.sums ≡ ok sums
  pub heap_sum : sum_of sums "heap.raw" ≡ ok (hash_of d bundle.heap)
  pub layout_sum : sum_of sums "layout.json" ≡ ok (hash_of d bundle.layout)
  pub maps_sum : sum_of sums "maps.txt" ≡ ok (hash_of d bundle.maps)

is_layout-eq : (layout : Layout) (o : Option Layout) → is_layout layout o ≡ true → o ≡ some layout
is_layout-eq layout none h = cc
is_layout-eq layout (some l) h = ap some (sym (same_layout-eq layout l h))

not-not : (b : Bool) → not b ≡ false → b ≡ true
not-not b h = ground arith

module _ (d : Digest) (read_layout : List ℕ → Result Layout) (bundle : Bundle) where
  check_sidecar-eq :
      (sums : Sums) (name : String) (recorded : Option String) (bytes : List ℕ)
      → check_sidecar d read_layout sums name recorded bytes ≡ ok tt
      → (recorded ≡ some (hash_of d bytes)) × (sum_of sums name ≡ ok (hash_of d bytes))
  unfolding check_sidecar
  check_sidecar-eq sums name none bytes h = cc
  check_sidecar-eq sums name (some expected) bytes h =
      let (same, h₁) = >>-eq-ok (verify_digest (hash_of d bytes) expected) _ h in
      let (sum, found, h₂) = >>=-eq-ok (sum_of sums name) _ h₁ in
      let e = verify_digest-eq-ok (hash_of d bytes) expected same in
      let f = verify_digest-eq-ok sum expected h₂ in (ap some (sym e), found ∙ ap ok (f ∙ sym e))

  -- A reader that opens on a bundle has the index given and the bytes of the bundle. The index keeps
  -- its objects; its layout and its mappings are those that the sidecars give, its three digests are
  -- those of the files and of the table of digests, and its size is that of the capture.
  pub open_bundle-IsOpened :
      (index : Index) (r : Reader)
      → open_bundle d read_layout bundle index ≡ ok r
      → IsOpened d read_layout bundle index r
  unfolding open_bundle
  open_bundle-IsOpened index r h =
      let (kept, h₀) = >>-eq-ok (refuse_if index.streamed _) _ h in
      let (sums, read, h₁) = >>=-eq-ok (checksums bundle.sums) _ h₀ in
      let (l, h₂) =
        >>-eq-ok (check_sidecar d read_layout sums "layout.json" index.layout_sha256 bundle.layout)
          _ h₁ in
      let (m, h₃) =
        >>-eq-ok (check_sidecar d read_layout sums "maps.txt" index.maps_sha256 bundle.maps) _ h₂ in
      let (layout_small, h₄) =
        read_bounded-then d read_layout bundle (2 * chunk_size) bundle.layout _ h₃ in
      let (actual, parsed, h₅) = >>=-eq-ok (read_layout bundle.layout) _ h₄ in
      let (same, h₆) = >>-eq-ok (refuse_if (not (is_layout actual index.layout)) _) _ h₅ in
      let (maps_small, h₇) =
        read_bounded-then d read_layout bundle (16 * chunk_size) bundle.maps _ h₆ in
      let (mappings, mapped, h₈) = >>=-eq-ok (read_maps bundle.maps index.heap_bytes) _ h₇ in
      let (same_maps, h₉) =
        >>-eq-ok (refuse_if (not (same_mappings mappings index.mappings)) _) _ h₈ in
      let (hash, h₁₀) = >>-eq-ok (verify_digest (hash_of d bundle.heap) index.heap_sha256) _ h₉ in
      let (sum, found, h₁₁) = >>=-eq-ok (sum_of sums "heap.raw") _ h₁₀ in
      let (agrees, h₁₂) = >>-eq-ok (verify_digest sum index.heap_sha256) _ h₁₁ in
      let (size, h₁₃) =
        >>-eq-ok (refuse_if (not (length bundle.heap == index.heap_bytes)) _) _ h₁₂ in
      let (layout_hash, layout_sum) =
        check_sidecar-eq sums "layout.json" index.layout_sha256 bundle.layout l in
      let (maps_hash, maps_sum) =
        check_sidecar-eq sums "maps.txt" index.maps_sha256 bundle.maps m in
      let whole : length bundle.heap ≡ index.heap_bytes =
        (==_iff _ _).0 (not-not _ (refuse_if-eq-ok _ _ size)) in
      let is_hash = verify_digest-eq-ok (hash_of d bundle.heap) index.heap_sha256 hash in
      record {
        reader = sym (ok-injective h₁₃);
        kept = refuse_if-eq-ok _ _ kept;
        layout = actual;
        parsed = parsed;
        with_layout = is_layout-eq actual index.layout (not-not _ (refuse_if-eq-ok _ _ same));
        mapped =
            ap (read_maps bundle.maps) whole
            ∙ mapped
            ∙ ap ok (
                same_mappings-eq mappings index.mappings
                  (not-not _ (refuse_if-eq-ok _ _ same_maps)));
        hash = sym is_hash;
        layout_hash = layout_hash;
        maps_hash = maps_hash;
        size = sym whole;
        sums = sums;
        read = read;
        heap_sum = found ∙ ap ok (verify_digest-eq-ok sum index.heap_sha256 agrees ∙ sym is_hash);
        layout_sum = layout_sum;
        maps_sum = maps_sum;
      }
