-- ===== src/Tests/Capture.antt =====
-- A capture of 64 bytes with one object, its layout, and the scan of it.
use zgcmaster.Prelude.{
  ℕ, zero, suc, Bool, true, false, none, some, List, [], ◌∷◌, ◌++◌, length, Result, ok, err, ◌≡◌,
  refl,
}
use mathlib.Core.List.{append-nil, append_assoc}
use zgcmaster.Words.{number, width, word}
use zgcmaster.Words.Hex.{hex}
use zgcmaster.Layout.{Class, Layout, validate_layout, compressed, klass_width}
use zgcmaster.Digest.{Digest}
use zgcmaster.Scan.{Object, ScanOptions, Scanned, scan_with}

-- A digest for the examples: the number of the bytes.
abbrev pub example_digest : Digest
example_digest = record {
  State = List ℕ;
  start = [];
  update = ◌++◌;
  finalize = λ bytes. hex (length bytes);
  update_nil = λ h. append-nil h;
  update-append = λ h a b. append_assoc h a b;
}

abbrev pub is_ok {ℓ} : {A : Type ℓ} → Result A → Bool
is_ok (ok a) = true
is_ok (err e) = false

pub value_of {ℓ} : {A : Type ℓ} (r : Result A) → is_ok r ≡ true → (a : A) × (r ≡ ok a)
value_of (ok a) h = (a, refl)
value_of (err e) h = cc

abbrev pub zeros : ℕ → List ℕ
zeros zero = []
zeros (suc n) = 0 ∷ zeros n

-- A mark word of 1 and the identity 0x1000 at offset 16, among zeros.
abbrev pub tiny : List ℕ
tiny = zeros 16 ++ 1 ∷ zeros 7 ++ 0 ∷ 16 ∷ zeros 6 ++ zeros 32

abbrev pub point : Class
point = record {
  name = "Point";
  klass = "0x1000";
  kind = "instance";
  size = 24;
  fields = record { name = "x"; offset = 16; type = "int" } ∷ [];
  element = "";
  base = 0;
  scale = 0;
  length_offset = 0;
}

abbrev pub tiny_layout : Layout
tiny_layout = record {
  version = 1;
  profile = "hotspot21-zgc-nongen-uncompressed-le64";
  java = "21.0.2";
  architecture = "amd64";
  classes = point ∷ [];
}

abbrev pub plain : ScanOptions
plain = record {
  only = [];
  identity_mapping = false;
  layout = some tiny_layout;
  discover_bindings = false;
}

pub tiny_layout_valid : validate_layout tiny_layout ≡ ok tt
unfolding validate_layout number compressed width
tiny_layout_valid = refl

scan_works : is_ok (scan_with example_digest tiny (some tiny_layout) [] plain false none) ≡ true
unfolding scan_with validate_layout number compressed width word klass_width
scan_works = refl

pub tiny_scan :
    (out : Scanned) × (scan_with example_digest tiny (some tiny_layout) [] plain false none
      ≡ ok out)
tiny_scan = value_of _ scan_works

abbrev objects_of : Result Scanned → List Object
objects_of (ok scanned) = scanned.index.objects
objects_of (err e) = []

-- The object that the capture holds is found.
tiny_objects :
    objects_of (scan_with example_digest tiny (some tiny_layout) [] plain false none)
    ≡ record { offset = 16; size = 24; class_id = 0; length = none } ∷ []
unfolding scan_with validate_layout number compressed width word klass_width
tiny_objects = refl
