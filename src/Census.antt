-- ===== src/Census.antt =====
-- src/census.rs: the options, the tallies, the magic numbers (with `sniff` of src/analysis.rs) and the
-- classes that an index has to include.
pub mod Laws
pub mod Classify
pub mod Collect
pub mod Signatures
pub mod Magic
pub mod Carve
pub mod Extracted
pub mod Accounts
pub mod Sound
pub mod Kinds
use zgcmaster.Prelude.{
  ℕ, ◌+◌, ◌*◌, Bool, true, false, ◌&&◌, ◌||◌, not, String, Option, none, some, List, [], ◌∷◌,
  length, any, ltb, leb, ◌==◌, get_or, codes, ◌is◌, contains, starts_with, if◌then◌else◌, Result,
  ok, err, invalid, ◌>>=◌, ◌>>◌, refuse_if, ok_or, for_each, ◌/◌,
}
use zgcmaster.Words.{chunk_size}
use zgcmaster.Dict.{Dict, upsert}
use zgcmaster.Layout.{Class, Layout}
use zgcmaster.Scan.{Index}

pub record Options : Type 0 where
  pub max_bytes : ℕ
  pub region_bytes : ℕ

abbrev pub default_options : Options
default_options = record { max_bytes = chunk_size; region_bytes = 64 * 1024 * 1024 }

unfoldable pub validate_options : Options → Result (Unit {0})
validate_options o =
    refuse_if (not (leb 1 o.max_bytes && leb o.max_bytes chunk_size))
      "--max-bytes must be 1..1048576"
    >> refuse_if
        (not (leb (16 * 1024 * 1024) o.region_bytes && leb o.region_bytes (1024 * 1024 * 1024)))
        "--region-bytes must be 16 MiB..1 GiB"

pub record Tally : Type 0 where
  pub count : ℕ
  pub payload_bytes : ℕ

abbrev pub tally_entry : ℕ → Option Tally → Tally
tally_entry n none = record { count = 1; payload_bytes = n }
tally_entry n (some t) = record { count = t.count + 1; payload_bytes = t.payload_bytes + n }

unfoldable pub tally : Dict Tally → String → ℕ → Dict Tally
unfolding upsert
tally map name n = upsert name (tally_entry n) map

-- `p[3] & 0xe0 == 0` of a byte: below 32.
abbrev pub is_gzip : List ℕ → Bool
is_gzip p = leb 10 (length p) && starts_with (0x1f ∷ 0x8b ∷ 8 ∷ []) p && get_or p 3 0 / 32 == 0

abbrev pub is_jpeg : List ℕ → Bool
is_jpeg p =
    leb 4 (length p)
    && starts_with (0xff ∷ 0xd8 ∷ 0xff ∷ []) p
    && (leb 0xc0 (get_or p 3 0) && leb (get_or p 3 0) 0xfe)

abbrev pub is_png : List ℕ → Bool
is_png p =
    leb 24 (length p)
    && starts_with (0x89 ∷ b'P' ∷ b'N' ∷ b'G' ∷ 13 ∷ 10 ∷ 26 ∷ 10 ∷ 0 ∷ 0 ∷ 0 ∷ 13 ∷ codes "IHDR") p

abbrev pub is_gif : List ℕ → Bool
is_gif p = leb 10 (length p) && (starts_with (codes "GIF87a") p || starts_with (codes "GIF89a") p)

abbrev pub is_zip : List ℕ → Bool
is_zip p = leb 30 (length p) && starts_with (b'P' ∷ b'K' ∷ 3 ∷ 4 ∷ []) p

unfoldable pub sniff : List ℕ → Option String
sniff p =
    if is_gzip p
    then some "gz"
    else if is_jpeg p
    then some "jpg"
    else if is_png p
    then some "png"
    else if is_gif p
    then some "gif"
    else if is_zip p
    then some "zip"
    else none

abbrev pub media_name : String → String
media_name s = if s is "jpg" then "jpeg" else if s is "gz" then "gzip" else s

unfoldable pub magic : List ℕ → Option String
unfolding sniff
magic p = elim (sniff p) [
  | some s ↦ some (media_name s)
  | none ↦ if starts_with (codes "%PDF-") p then some "pdf" else none
]

-- The class is missing from the layout, or the index was made without it.
abbrev pub lacks : Layout → List String → String → Bool
lacks layout only name =
    not (any (λ (c : Class). c.name is name) layout.classes)
    || (ltb 0 (length only) && not (any (λ (n : String). n is name) only))

unfoldable pub require_indexed : Index → List String → Result (Unit {0})
require_indexed index names = ok_or index.layout "Typed index required" >>= λ layout.
    for_each (λ name. refuse_if (lacks layout index.only name) "Index must include a class") names
