-- ===== src/Tests/Parsing.antt =====
-- The theorems on words, maps and references, at concrete inputs.
use zgcmaster.Prelude.{
  ℕ, ◌+◌, ◌%◌, ◌^◌, ◌<◌, some, List, [], ◌∷◌, codes, ok, ◌≡◌, ◌↔◌, ◌⊎◌, refl, arith,
}
use zgcmaster.Words.{number, unsigned}
use zgcmaster.Words.Hex.{hex, number-hex}
use zgcmaster.Maps.{Mapping, parse_maps, translate}
use zgcmaster.Maps.Laws.{IsValidMaps, parse_maps-IsValidMaps}
use zgcmaster.Maps.Translate.{Has, Covers, backed_at, translate-parse_maps}
use zgcmaster.Address.{target, non_gen_low42, gen_arm_low_address, gen_x86_low_address}
use zgcmaster.Address.Laws.{color_amd64, color_aarch64, target-color, target-non_gen_low42}

number-hex_example : number (hex 4096) ≡ ok 4096
number-hex_example = number-hex 4096 (omega arith)

abbrev maps_text : List ℕ
maps_text = codes "1000-3000 rw-s 00000000 00:01 1 /memfd:java_heap"

abbrev maps : List Mapping
maps = record { start = 0x1000; end = 0x3000; offset = 0 } ∷ []

maps_parsed : parse_maps maps_text 0x4000 ≡ ok maps
unfolding parse_maps unsigned
maps_parsed = refl

parse_maps-IsValidMaps_example : IsValidMaps 0x4000 maps
parse_maps-IsValidMaps_example = parse_maps-IsValidMaps maps_text 0x4000 maps maps_parsed

translate-parse_maps_example :
    ((m : Mapping)
      → Has m maps
      → Covers m 0x1010
      → translate maps 0x1010 ≡ some (backed_at m 0x1010))
    × ((t : ℕ)
        → translate maps 0x1010 ≡ some t
        → (t < 0x4000) × ((m : Mapping) × Has m maps × Covers m 0x1010 × (t ≡ backed_at m 0x1010)))
translate-parse_maps_example =
    translate-parse_maps maps_text 0x4000 0x1010 maps (omega arith) (omega arith) maps_parsed

target-color_example :
    (target gen_x86_low_address (color_amd64 0 1 (2 ^ 42 + 64)) ≡ some 64)
    × (target gen_arm_low_address (color_aarch64 0 1 (2 ^ 42 + 64)) ≡ some 64)
target-color_example =
    target-color 42 0 1 64 (omega arith) (omega arith) (omega arith) (omega arith) refl
      (omega arith)

target-non_gen_low42_example : (target non_gen_low42 (2 ^ 43 + 64) ≡ some 64) ↔ (
    (2 ^ 43 + 64 < 2 ^ 46)
    × (64 < 2 ^ 42)
    × (((2 ^ 43 + 64) % 2 ^ 45 ≡ 2 ^ 42 + 64)
        ⊎ ((2 ^ 43 + 64) % 2 ^ 45 ≡ 2 ^ 43 + 64)
        ⊎ ((2 ^ 43 + 64) % 2 ^ 45 ≡ 2 ^ 44 + 64)))
target-non_gen_low42_example = target-non_gen_low42 (2 ^ 43 + 64) 64
