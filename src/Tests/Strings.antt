-- ===== src/Tests/Strings.antt =====
-- The theorems on templates and raw strings, at a capture of 96 bytes that holds one String.
use zgcmaster.Prelude.{
  ℕ, ◌+◌, ◌%◌, ◌^◌, ◌≡◌, refl, true, false, String, List, [], ◌∷◌, ◌++◌, Result, ok, ◌>>=◌, arith,
}
use zgcmaster.Words.{number, width, word}
use zgcmaster.Words.Hex.{hex}
use zgcmaster.Dict.{Dict}
use zgcmaster.Digest.{hash_of}
use zgcmaster.Layout.{Layout, compressed}
use zgcmaster.Layout.Laws.{IsKind}
use zgcmaster.Address.{non_gen_low42, target}
use zgcmaster.Profiles.{boot, is_bound}
use zgcmaster.Profiles.Laws.{AllClasses, boot-IsKind}
use zgcmaster.Walk.{single_pass}
use zgcmaster.Scan.{plausible}
use zgcmaster.RawStrings.{
  Bindings, Pair, Decoded, new_bindings, java_hash, decode_header, made_pair, read_fields, pair,
}
use zgcmaster.RawStrings.Hash.{polynomial, payload_units, java_hash-polynomial}
use zgcmaster.RawStrings.Sound.{IsDecoded, decode_header-IsDecoded}
use zgcmaster.RawStrings.Total.{decode_header_total}
use zgcmaster.RawStrings.Walk.{
  walk_header, take_header, walk_chunks, finish_walk, walk_chunks-eq-single_pass,
}
use zgcmaster.RawStrings.Report.{StringReport, strings_with_pack}
use zgcmaster.RawStrings.Reported.{IsProgress, strings_with_pack-IsProgress}
use zgcmaster.Tests.Capture.{example_digest, zeros, is_ok, value_of}

abbrev pub bound : Dict String
bound = ("[B", "0x2000") ∷ ("java.lang.String", "0x1000") ∷ []

abbrev pub profile : String
profile = "hotspot21-zgc-nongen-uncompressed-le64"

booted : is_ok (boot profile bound) ≡ true
unfolding boot
booted = refl

boot_layout_example : (layout : Layout) × (boot profile bound ≡ ok layout)
boot_layout_example = value_of _ booted

boot-IsKind_example :
    AllClasses
      (λ c. IsKind boot_layout_example.0 c × (is_bound bound c ≡ true))
      boot_layout_example.0.classes
boot-IsKind_example =
    boot-IsKind profile bound boot_layout_example.0 (omega arith) boot_layout_example.1

abbrev pub wide_bindings : Bindings
wide_bindings = record {
  profile = profile;
  model = non_gen_low42;
  narrow = false;
  string_klass = 0x1000;
  array_klass = 0x2000;
  max_bytes = 65_536;
}

new_bindings_value :
    new_bindings profile "nongen-low42-equals-file-offset" bound 65_536 ≡ ok wide_bindings
unfolding new_bindings boot zgcmaster.Layout.validate_layout number compressed width
    zgcmaster.Address.parse_model zgcmaster.Address.model_profile zgcmaster.Layout.length_offset
new_bindings_value = refl

-- The String "hi" with its cached hash 3329, and its array at offset 64.
abbrev pub string_capture : List ℕ
string_capture =
    1 ∷ zeros 7
    ++ 0 ∷ 16 ∷ zeros 6
    ++ 1 ∷ 13 ∷ zeros 6
    ++ 64 ∷ zeros 4
    ++ 4 ∷ zeros 2
    ++ zeros 32
    ++ 1 ∷ zeros 7
    ++ 0 ∷ 32 ∷ zeros 6
    ++ 2 ∷ zeros 7
    ++ 104 ∷ 105 ∷ zeros 6

abbrev string_header : List ℕ
string_header = take_header 32 string_capture 96 0

hi_hash : java_hash (104 ∷ 105 ∷ []) 0 ≡ 3329
unfolding java_hash
hi_hash = refl

java_hash-polynomial_example :
    java_hash (104 ∷ 105 ∷ []) 0 ≡ polynomial (payload_units (104 ∷ 105 ∷ []) 0) % 2 ^ 32
java_hash-polynomial_example = java_hash-polynomial (104 ∷ 105 ∷ []) 0

abbrev hi : Pair
hi = record {
  offset = 0;
  target = 64;
  raw = 2 ^ 42 + 64;
  payload = 104 ∷ 105 ∷ [];
  coder = 0;
  cached = 3329;
  computed = 3329;
  status = "match";
}

hi_decoded : decode_header wide_bindings string_capture 96 0 string_header ≡ ok (pair hi)
unfolding decode_header plausible word target zgcmaster.Words.aligned java_hash
    zgcmaster.RawStrings.status_of
hi_decoded = refl

decode_header-IsDecoded_example : IsDecoded wide_bindings string_capture 96 0 string_header hi
decode_header-IsDecoded_example =
    decode_header-IsDecoded wide_bindings string_capture 96 0 string_header hi refl hi_decoded

decode_header_total_example :
    (decoded : Decoded) × (decode_header wide_bindings string_capture 96 0 string_header
      ≡ ok decoded)
decode_header_total_example =
    decode_header_total wide_bindings string_capture 96 0 string_header (omega arith) (omega arith)

abbrev count_visit : ℕ → List ℕ → ℕ → ℕ → Result ℕ
count_visit offset header size seen = ok (seen + 1)

walk_chunks-eq-single_pass_example :
    walk_chunks example_digest 8 (0x1000 ∷ []) 32 count_visit string_capture 0 16 ≡ (
      single_pass 32
        (take_header 32)
        (walk_header 8 (0x1000 ∷ []) 96 count_visit)
        string_capture
        96
        12
        0
        (0, 0)
      >>= λ p.
          finish_walk example_digest 8
            (0x1000 ∷ [])
            32
            count_visit
            string_capture
            0
            (string_capture, p))
walk_chunks-eq-single_pass_example =
    walk_chunks-eq-single_pass example_digest 8 (0x1000 ∷ []) 32 count_visit string_capture 0 2
      (omega arith)

report_works :
    is_ok (strings_with_pack example_digest string_capture string_capture wide_bindings 1 true)
    ≡ true
unfolding strings_with_pack word plausible target zgcmaster.Words.aligned hex
report_works = refl

report :
    (r : StringReport) × (strings_with_pack example_digest string_capture string_capture
        wide_bindings 1 true
      ≡ ok r)
report = value_of _ report_works

strings_with_pack-IsProgress_example :
    IsProgress wide_bindings string_capture 1 true report.0.header_candidates
      (record { counts = report.0.counts; emitted = report.0.emitted; rows = report.0.rows })
    × (report.0.hash ≡ hash_of example_digest string_capture)
    × (report.0.bytes ≡ 96)
    × (hash_of example_digest string_capture ≡ report.0.hash)
strings_with_pack-IsProgress_example =
    strings_with_pack-IsProgress example_digest string_capture string_capture wide_bindings 1 true
      report.0 report.1
