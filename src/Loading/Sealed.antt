-- ===== src/Loading/Sealed.antt =====
-- A scan of a bundle, and that the reader opens what it gives (src/lib.rs).
use zgcmaster.Prelude.{
  ℕ, ◌*◌, Bool, false, String, some, List, length, ◌>>=◌, ltb, Bool-cases, inl, inr, ◌≡◌, refl, sym,
  ap, ◌∙◌, subst, Result, ok, refuse_if, >>=-eq-ok, >>-eq-ok, ok-injective, eq_iff, ==_refl,
}
use zgcmaster.Words.{chunk_size}
use zgcmaster.Digest.{Digest, hash_of, verify_digest, verify_digest-eq-ok}
use zgcmaster.Layout.{Layout, validate_layout}
use zgcmaster.Layout.Same.{same_layout_refl, same_mappings_refl}
use zgcmaster.Maps.{Mapping}
use zgcmaster.Scan.{Index, ScanOptions, Scanned, scan_with}
use zgcmaster.Scan.Facts.{ScanFacts, scan_with-ScanFacts}
use zgcmaster.Checksums.{Sums, read_bounded, checksums}
use zgcmaster.Loading.Bundles.{
  Bundle, seal, sum_of, read_maps, verify_file, scan_bundle_with, check_sidecar, open_bundle,
}

verify_digest_refl : (hash : String) → verify_digest hash hash ≡ ok tt
unfolding verify_digest
verify_digest_refl hash = rw ((eq_iff hash hash).1 refl)

module _ (d : Digest) (read_layout : List ℕ → Result Layout) (bundle : Bundle) where
  -- What the digest of a file agrees with.
  verify_file-eq :
      (sums : Sums) (name : String) (bytes : List ℕ)
      → verify_file d read_layout sums name bytes ≡ ok tt
      → sum_of sums name ≡ ok (hash_of d bytes)
  verify_file-eq sums name bytes h =
      let (sum, found, same) = >>=-eq-ok (sum_of sums name) _ h in
      found ∙ ap ok (sym (verify_digest-eq-ok (hash_of d bytes) sum same))

  check_sidecar-ok :
      (sums : Sums) (name : String) (bytes : List ℕ)
      → sum_of sums name ≡ ok (hash_of d bytes)
      → check_sidecar d read_layout sums name (some (hash_of d bytes)) bytes ≡ ok tt
  unfolding check_sidecar
  check_sidecar-ok sums name bytes found =
      rw (verify_digest_refl (hash_of d bytes), found, verify_digest_refl (hash_of d bytes))

  pub read_bounded-then {ℓ} :
      {A : Type ℓ} (limit : ℕ) (bytes : List ℕ) (next : List ℕ → Result A) {a : A}
      → (read_bounded limit bytes >>= next) ≡ ok a
      → (read_bounded limit bytes ≡ ok bytes) × (next bytes ≡ ok a)
  unfolding read_bounded
  read_bounded-then limit bytes next h = elim (Bool-cases (ltb limit (length bytes))) [
    | inl long ↦ let e = rw long at h in cc
    | inr short ↦ (rw short, rw short at h)
  ]

  -- What a scan of the bundle has established.
  pub record BundleFacts (options : ScanOptions) (streaming : Bool) (out : Scanned) : Type 1 where
    pub sums : Sums
    pub read : checksums bundle.sums ≡ ok sums
    pub layout_small : read_bounded (2 * chunk_size) bundle.layout ≡ ok bundle.layout
    pub maps_small : read_bounded (16 * chunk_size) bundle.maps ≡ ok bundle.maps
    pub layout_sum : sum_of sums "layout.json" ≡ ok (hash_of d bundle.layout)
    pub maps_sum : sum_of sums "maps.txt" ≡ ok (hash_of d bundle.maps)
    pub heap_sum : sum_of sums "heap.raw" ≡ ok (hash_of d bundle.heap)
    pub layout : Layout
    pub parsed : read_layout bundle.layout ≡ ok layout
    pub mappings : List Mapping
    pub mapped : read_maps bundle.maps (length bundle.heap) ≡ ok mappings
    pub scanned : Scanned
    pub scan :
        scan_with d bundle.heap
          (some layout)
          mappings
          options
          streaming
          (some (hash_of d bundle.heap))
        ≡ ok scanned
    pub index_is : out.index ≡ record (scanned.index) {
      layout_sha256 = some (hash_of d bundle.layout);
      maps_sha256 = some (hash_of d bundle.maps);
    }

  -- The last steps of the scan of a bundle.
  seal-eq :
      (sums : Sums) (scanned out : Scanned)
      → sum_of sums "layout.json" ≡ ok (hash_of d bundle.layout)
      → sum_of sums "maps.txt" ≡ ok (hash_of d bundle.maps)
      → (sum_of sums "layout.json" >>= λ layout_sum.
          sum_of sums "maps.txt" >>= λ maps_sum. ok (seal layout_sum maps_sum scanned))
        ≡ ok out
      → out.index ≡ record (scanned.index) {
        layout_sha256 = some (hash_of d bundle.layout);
        maps_sha256 = some (hash_of d bundle.maps);
      }
  seal-eq sums scanned out layout_sum maps_sum h =
      ap (λ (s : Scanned). s.index) (sym (ok-injective (rw (layout_sum, maps_sum) at h)))

  pub scan_bundle_with-BundleFacts :
      (options : ScanOptions) (streaming : Bool) (out : Scanned)
      → scan_bundle_with d read_layout bundle options streaming ≡ ok out
      → BundleFacts options streaming out
  unfolding scan_bundle_with
  scan_bundle_with-BundleFacts options streaming out h =
      let (g₀, h₀) = >>-eq-ok (refuse_if options.discover_bindings _) _ h in
      let (sums, read, h₁) = >>=-eq-ok (checksums bundle.sums) _ h₀ in
      let (layout_small, h₂) = read_bounded-then (2 * chunk_size) bundle.layout _ h₁ in
      let (maps_small, h₃) = read_bounded-then (16 * chunk_size) bundle.maps _ h₂ in
      let (few, h₄) = read_bounded-then 8192 bundle.consistency _ h₃ in
      let (v₁, h₅) = >>-eq-ok (verify_file d read_layout sums "layout.json" bundle.layout) _ h₄ in
      let (v₂, h₆) = >>-eq-ok (verify_file d read_layout sums "maps.txt" bundle.maps) _ h₅ in
      let (v₃, h₇) =
        >>-eq-ok (verify_file d read_layout sums "consistency.txt" bundle.consistency) _ h₆ in
      let (layout, parsed, h₈) = >>=-eq-ok (read_layout bundle.layout) _ h₇ in
      let (valid, h₉) = >>-eq-ok (validate_layout layout) _ h₈ in
      let (mappings, mapped, h₁₀) = >>=-eq-ok (read_maps bundle.maps (length bundle.heap)) _ h₉ in
      let (sum, heap_found, h₁₁) = >>=-eq-ok (sum_of sums "heap.raw") _ h₁₀ in
      let (scanned, scan, h₁₂) =
        >>=-eq-ok (scan_with d bundle.heap (some layout) mappings options streaming (some sum)) _
          h₁₁ in
      let (checked, h₁₃) = >>-eq-ok (verify_digest scanned.index.heap_sha256 sum) _ h₁₂ in
      let facts : ScanFacts d bundle.heap (some layout) mappings options streaming (some sum)
          scanned =
        scan_with-ScanFacts d bundle.heap (some layout) mappings options streaming (some sum)
          scanned scan in
      let same : sum ≡ hash_of d bundle.heap =
        sym (verify_digest-eq-ok scanned.index.heap_sha256 sum checked)
        ∙ ap (λ (x : Index). x.heap_sha256) facts.index_is in
      let layout_sum = verify_file-eq sums "layout.json" bundle.layout v₁ in
      let maps_sum = verify_file-eq sums "maps.txt" bundle.maps v₂ in
      record {
        sums = sums;
        read = read;
        layout_small = layout_small;
        maps_small = maps_small;
        layout_sum = layout_sum;
        maps_sum = maps_sum;
        heap_sum = heap_found ∙ ap ok same;
        layout = layout;
        parsed = parsed;
        mappings = mappings;
        mapped = mapped;
        scanned = scanned;
        scan =
            subst
              (λ s.
                scan_with d bundle.heap (some layout) mappings options streaming (some s)
                ≡ ok scanned)
              same scan;
        index_is = seal-eq sums scanned out layout_sum maps_sum h₁₃;
      }

  pub scan_bundle_with-streamed :
      (options : ScanOptions) (streaming : Bool) (out : Scanned)
      → scan_bundle_with d read_layout bundle options streaming ≡ ok out
      → out.index.streamed ≡ streaming
  scan_bundle_with-streamed options streaming out h =
      let f = scan_bundle_with-BundleFacts options streaming out h in
      let facts : ScanFacts d bundle.heap (some f.layout) f.mappings options streaming
          (some (hash_of d bundle.heap)) f.scanned =
        scan_with-ScanFacts d bundle.heap (some f.layout) f.mappings options streaming
          (some (hash_of d bundle.heap)) f.scanned f.scan in
      ap (λ (x : Index). x.streamed) f.index_is ∙ ap (λ (x : Index). x.streamed) facts.index_is

  sealed-open :
      (options : ScanOptions) (scanned out : Scanned) (f : BundleFacts options false out)
      → let index : Index =
          (seal (hash_of d bundle.layout) (hash_of d bundle.maps) f.scanned).index in
        open_bundle d read_layout bundle index ≡ ok (record { file = bundle.heap; index = index })
  unfolding open_bundle
  sealed-open options scanned out f =
      let facts : ScanFacts d bundle.heap (some f.layout) f.mappings options false
          (some (hash_of d bundle.heap)) f.scanned =
        scan_with-ScanFacts d bundle.heap (some f.layout) f.mappings options false
          (some (hash_of d bundle.heap)) f.scanned f.scan in
      let streamed : f.scanned.index.streamed ≡ false =
        ap (λ (x : Index). x.streamed) facts.index_is in
      let layout : f.scanned.index.layout ≡ some f.layout =
        ap (λ (x : Index). x.layout) facts.index_is in
      let mappings : f.scanned.index.mappings ≡ f.mappings =
        ap (λ (x : Index). x.mappings) facts.index_is in
      let size : f.scanned.index.heap_bytes ≡ length bundle.heap =
        ap (λ (x : Index). x.heap_bytes) facts.index_is in
      let hash : f.scanned.index.heap_sha256 ≡ hash_of d bundle.heap =
        ap (λ (x : Index). x.heap_sha256) facts.index_is in
      rw (
        streamed,
        f.read,
        check_sidecar-ok f.sums "layout.json" bundle.layout f.layout_sum,
        check_sidecar-ok f.sums "maps.txt" bundle.maps f.maps_sum,
        f.layout_small,
        f.parsed,
        layout,
        same_layout_refl f.layout,
        f.maps_small,
        size,
        f.mapped,
        mappings,
        same_mappings_refl f.mappings,
        hash,
        verify_digest_refl (hash_of d bundle.heap),
        f.heap_sum,
        verify_digest_refl (hash_of d bundle.heap),
        ==_refl (length bundle.heap),
      )

  -- A bundle that was scanned with its objects kept opens on the index of the scan: the reader has
  -- the bytes of its capture.
  pub open_bundle-scan_bundle_with :
      (options : ScanOptions) (out : Scanned)
      → scan_bundle_with d read_layout bundle options false ≡ ok out
      → open_bundle d read_layout bundle out.index
        ≡ ok (record { file = bundle.heap; index = out.index })
  open_bundle-scan_bundle_with options out h =
      let f = scan_bundle_with-BundleFacts options false out h in
      subst
        (λ (index : Index).
          open_bundle d read_layout bundle index
          ≡ ok (record { file = bundle.heap; index = index }))
        (sym f.index_is) (sealed-open options f.scanned out f)
