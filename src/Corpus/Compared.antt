-- ===== src/Corpus/Compared.antt =====
-- What `diff_captures` (src/corpus.rs) says of two captures.
use zgcmaster.Prelude.{
  ℕ, ◌≡◌, subst, Bool, true, false, ◌||◌, not, Option, List, ◌is◌, eq_iff, ok, refuse_if, >>=-eq-ok,
  >>-eq-ok, refuse_if-eq-ok, ok-injective, arith,
}
use zgcmaster.Digest.{Digest, hash_of}
use zgcmaster.RawStrings.Walk.{recheck, recheck-eq-ok}
use zgcmaster.Patterns.{Pack}
use zgcmaster.Corpus.{Options, validate}
use zgcmaster.Corpus.Snapshots.{Snapshot}
use zgcmaster.Corpus.Diff.{Capture, Report, mismatch, load_snapshot, diff_captures}
use zgcmaster.Corpus.Loaded.{IsSnapshot, load_snapshot-IsSnapshot}
use zgcmaster.Corpus.Balance.{IsDifference, report_of-IsDifference}

-- The two snapshots behind a report, and what it says of them.
pub record IsCompared (d : Digest) (is_json : List ℕ → Bool) (options : Options)
    (first second : Capture) (r : Report) : Type 0 where
  pub before : Snapshot
  pub after : Snapshot
  pub loaded_before : load_snapshot d is_json options first ≡ ok before
  pub loaded_after : load_snapshot d is_json options second ≡ ok after
  pub is_before : IsSnapshot d is_json options first before
  pub is_after : IsSnapshot d is_json options second after
  pub same_profile : before.profile ≡ after.profile
  pub same_architecture : before.architecture ≡ after.architecture
  pub difference : IsDifference before.progress.strings after.progress.strings r
  pub first_unchanged : hash_of d first.last ≡ before.heap_sha256
  pub second_unchanged : hash_of d second.last ≡ after.heap_sha256

-- A comparison that ends well has taken a snapshot of each capture, under the same labels, and each
-- holds exactly the texts of the Strings of its index that decode and pass the filters. For every
-- text it has a row as new exactly when only the second snapshot has it, and as gone exactly when
-- only the first has it; the texts new and unchanged make up the second set, those gone and
-- unchanged the first, and the unchanged are the texts in common; and each capture still had the
-- hash of its index when it was read for the last time.
pub diff_captures-IsCompared :
    (d : Digest) (is_json : List ℕ → Bool) (options : Options) (pack : Option Pack)
    (first second : Capture) (r : Report)
    → diff_captures d is_json options pack first second ≡ ok r
    → IsCompared d is_json options first second r
unfolding diff_captures
diff_captures-IsCompared d is_json options pack first second r h =
    let (valid, h₁) = >>-eq-ok (validate options) _ h in
    let (before, got_before, h₂) = >>=-eq-ok (load_snapshot d is_json options first) _ h₁ in
    let (after, got_after, h₃) = >>=-eq-ok (load_snapshot d is_json options second) _ h₂ in
    let (labels, h₄) = >>-eq-ok (refuse_if (mismatch before after) _) _ h₃ in
    let (again_first, h₅) =
      >>-eq-ok (recheck d first.last before.heap_bytes before.heap_sha256) _ h₄ in
    let (again_second, made) =
      >>-eq-ok (recheck d second.last after.heap_bytes after.heap_sha256) _ h₅ in
    let (profile, architecture) =
      same_labels (before.profile is after.profile) _ (before.architecture is after.architecture) _
        (refuse_if-eq-ok (mismatch before after) _ labels) in
    let b = load_snapshot-IsSnapshot d is_json options first before got_before in
    let a = load_snapshot-IsSnapshot d is_json options second after got_after in
    subst (IsCompared d is_json options first second) (ok-injective made) (record {
      before = before;
      after = after;
      loaded_before = got_before;
      loaded_after = got_after;
      is_before = b;
      is_after = a;
      same_profile = (eq_iff before.profile after.profile).0 profile;
      same_architecture = (eq_iff before.architecture after.architecture).0 architecture;
      difference = report_of-IsDifference pack before after b.bounded.distinct a.bounded.distinct;
      first_unchanged = recheck-eq-ok d first.last before.heap_bytes before.heap_sha256 again_first;
      second_unchanged =
          recheck-eq-ok d second.last after.heap_bytes after.heap_sha256 again_second;
    })
  where
    same_labels : (p j a i : Bool) → not p || j || not a || i ≡ false → (p ≡ true) × (a ≡ true)
    same_labels p j a i e = ground arith
