-- ===== src/Corpus/Loaded.antt =====
-- What `snapshot` (src/corpus.rs) says of a capture and its index.
use zgcmaster.Prelude.{
  refl, ℕ, ◌≡◌, sym, subst, Bool, ◌||◌, not, List, [], ◌∷◌, length, ◌==◌, is_some, ok, ok_or,
  ok_or-eq-ok, some, refuse_if, try_fold, >>=-eq-ok, >>-eq-ok, ok-injective,
}
use zgcmaster.Digest.{Digest, hash_of, verify_digest, verify_digest-eq-ok}
use zgcmaster.Layout.{Layout}
use zgcmaster.RawStrings.{Bindings}
use zgcmaster.Scan.{Index}
use zgcmaster.Reader.{Reader}
use zgcmaster.RawStrings.Walk.{recheck, recheck-eq-ok}
use zgcmaster.Loading.{check_index, check_index_layout, open_raw}
use zgcmaster.Loading.Laws.{check_index-IsLoaded}
use zgcmaster.Census.{require_indexed}
use zgcmaster.Census.Collect.{collect}
use zgcmaster.Census.Accounts.{IsCensus}
use zgcmaster.Census.Sound.{arrays_of, bytes_of, collect-IsCensus}
use zgcmaster.Corpus.{Options}
use zgcmaster.Corpus.Snapshots.{
  Snapshot, no_progress, add_object, bindings_of, snapshot, snapshot_of,
}
use zgcmaster.Corpus.Contents.{AreTexts, snapshot-AreTexts}
use zgcmaster.Corpus.Bounded.{IsBounded, strings_of, snapshot-IsBounded}
use zgcmaster.Corpus.Diff.{Capture, load_snapshot}

pub record IsSnapshot (d : Digest) (is_json : List ℕ → Bool) (options : Options) (c : Capture)
    (s : Snapshot) : Type 0 where
  pub layout : Layout
  pub bindings : Bindings
  pub typed : c.index.layout ≡ some layout
  pub bound : bindings_of is_json options layout ≡ ok bindings
  pub texts : AreTexts options bindings (record { file = c.file; index = c.index }) s.progress
  pub bounded : IsBounded options (strings_of c.index c.index.objects) s.progress
  pub census :
      IsCensus (arrays_of c.index c.index.objects) (bytes_of c.index c.index.objects) s.census
  pub of_index : s.heap_sha256 ≡ c.index.heap_sha256
  pub hash : hash_of d c.file ≡ s.heap_sha256
  pub unchanged : hash_of d c.later ≡ s.heap_sha256

open_raw-eq-ok :
    (d : Digest) (file : List ℕ) (index : Index) (r : Reader)
    → open_raw d file index ≡ ok r
    → (r ≡ record { file = file; index = index }) × (hash_of d file ≡ index.heap_sha256)
unfolding open_raw
open_raw-eq-ok d file index r h =
    let (g₁, h₁) = >>-eq-ok (refuse_if index.streamed _) _ h in
    let (g₂, h₂) =
      >>-eq-ok
        (refuse_if
          (not index.identity_mapping || not (is_some index.layout) || is_some index.layout_sha256)
          _)
        _ h₁ in
    let (g₃, h₃) = >>-eq-ok (check_index_layout index.layout) _ h₂ in
    let (g₄, h₄) = >>-eq-ok (verify_digest (hash_of d file) index.heap_sha256) _ h₃ in
    let (g₅, made) = >>-eq-ok (refuse_if (not (length file == index.heap_bytes)) _) _ h₄ in
    (sym (ok-injective made), verify_digest-eq-ok _ _ g₄)

snapshot_of-IsSnapshot :
    (is_json : List ℕ → Bool) (options : Options) (d : Digest) (c : Capture) (s : Snapshot)
    → hash_of d c.file ≡ c.index.heap_sha256
    → snapshot_of is_json options d c.later (record { file = c.file; index = c.index }) ≡ ok s
    → IsSnapshot d is_json options c s
unfolding snapshot_of
snapshot_of-IsSnapshot is_json options d c s same h =
    let r : Reader = record { file = c.file; index = c.index } in
    let (indexed, h₁) = >>-eq-ok (require_indexed r.index ("java.lang.String" ∷ "[B" ∷ [])) _ h in
    let (layout, typed, h₂) = >>=-eq-ok (ok_or r.index.layout "Typed index required") _ h₁ in
    let (b, bound, h₃) = >>=-eq-ok (bindings_of is_json options layout) _ h₂ in
    let (progress, folded, h₄) =
      >>=-eq-ok (try_fold (add_object options b r) no_progress r.index.objects) _ h₃ in
    let (census, collected, h₅) = >>=-eq-ok (collect is_json r options.census) _ h₄ in
    let (again, made) = >>-eq-ok (recheck d c.later r.index.heap_bytes r.index.heap_sha256) _ h₅ in
    subst (IsSnapshot d is_json options c) (ok-injective made) (record {
      layout = layout;
      bindings = b;
      typed = ok_or-eq-ok r.index.layout _ typed;
      bound = bound;
      texts = snapshot-AreTexts options b r progress folded;
      bounded = snapshot-IsBounded options b r progress folded;
      census = collect-IsCensus is_json r options.census census collected;
      of_index = refl;
      hash = same;
      unchanged = recheck-eq-ok d c.later r.index.heap_bytes r.index.heap_sha256 again;
    })

-- A snapshot that is taken holds exactly the texts of the Strings of the index that decode, with no
-- hash mismatch, with a hash where one is asked for, without loss and of the length asked for. They
-- are distinct and within the bounds on their number and their bytes; every String of the index is
-- a candidate, the counts add up to the candidates, and no more texts are found than there are
-- candidates; its census accounts for the byte arrays of the index; and the capture had the hash
-- of the index both when it was opened and when it was read again.
pub load_snapshot-IsSnapshot :
    (d : Digest) (is_json : List ℕ → Bool) (options : Options) (c : Capture) (s : Snapshot)
    → load_snapshot d is_json options c ≡ ok s
    → IsSnapshot d is_json options c s
unfolding load_snapshot snapshot
load_snapshot-IsSnapshot d is_json options c s h =
    let (index, checked, h₁) = >>=-eq-ok (check_index c.index) _ h in
    let same = (check_index-IsLoaded c.index index checked).0 in
    let h₂ : snapshot is_json options d c.file c.later c.index ≡ ok s =
      subst (λ i. snapshot is_json options d c.file c.later i ≡ ok s) same h₁ in
    let (r, opened, h₃) =
      >>=-eq-ok (open_raw d c.file c.index) (snapshot_of is_json options d c.later) h₂ in
    let (reader, hash) = open_raw-eq-ok d c.file c.index r opened in
    snapshot_of-IsSnapshot is_json options d c s hash
      (subst (λ x. snapshot_of is_json options d c.later x ≡ ok s) reader h₃)
