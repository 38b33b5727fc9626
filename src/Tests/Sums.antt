-- ===== src/Tests/Sums.antt =====
-- The theorem on tables of digests, at a table of four lines.
use zgcmaster.Prelude.{ℕ, true, List, [], ◌∷◌, ◌++◌, codes, ok, ◌≡◌, refl}
use zgcmaster.Checksums.{Sums, checksums}
use zgcmaster.Checksums.Laws.{HasDigest, checksums-HasDigest}
use zgcmaster.Tests.Capture.{is_ok, value_of}

abbrev line : List ℕ → List ℕ
line name =
    codes "AbAbAbAbAbAbAbAbAbAbAbAbAbAbAbAbAbAbAbAbAbAbAbAbAbAbAbAbAbAbAbAb " ++ name ++ 10 ∷ []

abbrev table : List ℕ
table =
    line (codes "heap.raw")
    ++ line (codes "layout.json")
    ++ line (codes "maps.txt")
    ++ line (codes "consistency.txt")

table_works : is_ok (checksums table) ≡ true
unfolding checksums zgcmaster.Utf8.piece
table_works = refl

sums : (s : Sums) × (checksums table ≡ ok s)
sums = value_of _ table_works

checksums-HasDigest_example :
    HasDigest sums.0 "heap.raw"
    × HasDigest sums.0 "layout.json"
    × HasDigest sums.0 "maps.txt"
    × HasDigest sums.0 "consistency.txt"
checksums-HasDigest_example = checksums-HasDigest table sums.0 sums.1
