-- ===== src/Tests/Counting.antt =====
-- The theorems on the census, at the index of a scan.
use zgcmaster.Prelude.{◌≡◌, refl, none, some, [], ◌∷◌, Result, ok, err, Bool, true, false}
use zgcmaster.Words.{number, width, word}
use zgcmaster.Layout.{compressed, klass_width, validate_layout}
use zgcmaster.Scan.{Scanned, scan_with}
use zgcmaster.Census.{magic, require_indexed}
use zgcmaster.Tests.Capture.{example_digest, tiny, tiny_layout, plain, is_ok}

pdf : magic (0x25 ∷ 0x50 ∷ 0x44 ∷ 0x46 ∷ 0x2d ∷ []) ≡ some "pdf"
unfolding magic
pdf = refl

abbrev includes_point : Result Scanned → Bool
includes_point (ok out) = is_ok (require_indexed out.index ("Point" ∷ []))
includes_point (err e) = false

point_included :
    includes_point (scan_with example_digest tiny (some tiny_layout) [] plain false none) ≡ true
unfolding require_indexed scan_with validate_layout number compressed width word klass_width
point_included = refl
