-- ===== src/Tests/Censuses.antt =====
-- The theorems on the census and on UTF-8, at a capture of 32 bytes with one byte array.
use zgcmaster.Prelude.{
  ℕ, ◌≡◌, refl, Bool, true, false, some, inl, List, [], ◌∷◌, ◌++◌, codes, ok, arith,
}
use zgcmaster.Words.{number, width, word}
use zgcmaster.Utf8.{valid, from_utf8, lossy}
use zgcmaster.Utf8.Laws.{encode_all}
use zgcmaster.Layout.{Class, Layout, klass_width}
use zgcmaster.Reader.{Reader}
use zgcmaster.Census.{default_options}
use zgcmaster.Census.Classify.{classify}
use zgcmaster.Census.Collect.{Collected, collect}
use zgcmaster.Census.Accounts.{IsCensus}
use zgcmaster.Census.Sound.{arrays_of, bytes_of, collect-IsCensus}
use zgcmaster.Census.Kinds.{IsText, classify-encode_all}
use zgcmaster.Tests.Capture.{zeros, is_ok, value_of, tiny_scan}

abbrev not_json : List ℕ → Bool
not_json text = false

abbrev pub byte_array : Class
byte_array = record {
  name = "[B";
  klass = "0x2000";
  kind = "array";
  size = 0;
  fields = [];
  element = "byte";
  base = 24;
  scale = 1;
  length_offset = 16;
}

abbrev pub byte_layout : Layout
byte_layout = record {
  version = 1;
  profile = "hotspot21-zgc-nongen-uncompressed-le64";
  java = "21.0.2";
  architecture = "amd64";
  classes = byte_array ∷ [];
}

-- The header of a byte array of length 5, and its payload "hello".
abbrev hello_capture : List ℕ
hello_capture = 1 ∷ zeros 7 ++ 0 ∷ 32 ∷ zeros 6 ++ 5 ∷ zeros 7 ++ codes "hello" ++ zeros 3

abbrev hello_reader : Reader
hello_reader = record {
  file = hello_capture;
  index = record (tiny_scan.0.index) {
    heap_bytes = 32;
    layout = some byte_layout;
    only = [];
    objects = record { offset = 0; size = 32; class_id = 0; length = some 5 } ∷ [];
  };
}

collects : is_ok (collect not_json hello_reader default_options) ≡ true
unfolding collect number width word klass_width zgcmaster.Words.aligned zgcmaster.Utf8.piece
    zgcmaster.Layout.compressed
collects = refl

collected : (s : Collected) × (collect not_json hello_reader default_options ≡ ok s)
collected = value_of _ collects

collect-IsCensus_example :
    IsCensus
      (arrays_of hello_reader.index hello_reader.index.objects)
      (bytes_of hello_reader.index hello_reader.index.objects)
      collected.0
collect-IsCensus_example =
    collect-IsCensus not_json hello_reader default_options collected.0 collected.1

one_array : arrays_of hello_reader.index hello_reader.index.objects ≡ 1
unfolding arrays_of
one_array = refl

-- That payload is such an anomaly.
is_anomaly : (classify not_json (0x61 ∷ 0x62 ∷ 0x63 ∷ 0x64 ∷ 0xe2 ∷ [])).text_like_anomaly ≡ true
unfolding classify zgcmaster.Utf8.pieces_from zgcmaster.Utf8.verdict_of
is_anomaly = refl

classify-encode_all_example :
    IsText not_json (0x61 ∷ 0x20ac ∷ []) (classify not_json (encode_all (0x61 ∷ 0x20ac ∷ [])))
classify-encode_all_example =
    classify-encode_all not_json 0x61 (0x20ac ∷ []) (inl (omega arith), (inl (omega arith), tt))
      (refl, (refl, tt))
