-- ===== src/Commands/Scanning.antt =====
-- `scan_command` of src/main.rs: the options of scan and scan-raw, and what is scanned. What a path
-- names is a parameter: a bundle, a file, a layout, or nothing.
use Prim.Native.Char.{Char, code}
use zgcmaster.Prelude.{
  ℕ, Bool, true, false, ◌&&◌, ◌||◌, not, String, Option, none, some, List, [], ◌∷◌, ◌++◌, length,
  ltb, ◌==◌, ◌is◌, is_some, if◌then◌else◌, Result, ok, err, invalid, ◌>>=◌, ◌>>◌, refuse_if,
}
use zgcmaster.Sorting.{sort_by, text_less}
use zgcmaster.Words.{number}
use zgcmaster.Dict.{Dict}
use zgcmaster.Digest.{Digest}
use zgcmaster.Layout.{Layout}
use zgcmaster.Profiles.{boot}
use zgcmaster.Scan.{ScanOptions, Scanned}
use zgcmaster.Loading.{scan_raw_with}
use zgcmaster.Loading.Bundles.{Bundle, Source, raw_file, folder, scan_bundle_with}
use zgcmaster.Summary.{Summary, summary}
use zgcmaster.Commands.{insert_once, split_binding}

-- What the loop over the arguments fills.
pub record ScanArguments : Type 0 where
  pub only : List String
  pub identity_mapping : Bool
  pub discover_bindings : Bool
  pub layout : Option Layout
  pub jsonl : Option String
  pub profile : Option String
  pub bindings : Dict String

abbrev pub no_arguments : ScanArguments
no_arguments = record {
  only = [];
  identity_mapping = false;
  discover_bindings = false;
  layout = none;
  jsonl = none;
  profile = none;
  bindings = [];
}

-- `value.split(',')`: one piece more than there are commas.
abbrev pub add_char : Char → List String → List String
add_char c [] = String.◌∷◌ c "" ∷ []
add_char c (piece ∷ pieces) = String.◌∷◌ c piece ∷ pieces

unfoldable pub split_pieces : ℕ → String → List String
split_pieces sign String.[] = "" ∷ []
split_pieces sign (String.◌∷◌ c s) =
    let pieces = split_pieces sign s in if code c == sign then "" ∷ pieces else add_char c pieces

-- `dedup`: of neighbours that are equal the first stays.
abbrev pub keep_new : String → List String → List String
keep_new s [] = s ∷ []
keep_new s (t ∷ ts) = if s is t then s ∷ ts else s ∷ t ∷ ts

unfoldable pub dedup : List String → List String
dedup [] = []
dedup (s ∷ ss) = keep_new s (dedup ss)

-- The flags without a value.
unfoldable pub set_switch : String → ScanArguments → Option ScanArguments
set_switch flag a =
    if flag is "--identity-mapping"
    then some (record a { identity_mapping = true })
    else if flag is "--discover-bindings"
    then some (record a { discover_bindings = true })
    else none

abbrev pub add_binding : String → ScanArguments → Result ScanArguments
add_binding value a = do
  (name, id) ← split_binding value
  klass ← number id
  bindings ← insert_once "Duplicate class binding" name id a.bindings
  ok (record a { bindings = bindings })

module _ (layout_at : String → Result Layout) where
  -- The `match` on a flag with its value.
  unfoldable pub set_value : String → String → ScanArguments → Result ScanArguments
  unfolding split_pieces split_binding insert_once number
  set_value flag value a =
      if flag is "--only"
      then ok (record a { only = a.only ++ split_pieces b',' value })
      else if flag is "--jsonl" && not (is_some a.jsonl)
      then ok (record a { jsonl = some value })
      else if flag is "--layout" && not (is_some a.layout)
      then (layout_at value >>= λ layout. ok (record a { layout = some layout }))
      else if flag is "--boot-profile" && not (is_some a.profile)
      then ok (record a { profile = some value })
      else if flag is "--bind"
      then add_binding value a
      else err (invalid "Unknown or repeated option")

  unfoldable pub read_arguments : List String → ScanArguments → Result ScanArguments
  unfolding set_switch set_value
  read_arguments [] a = ok a
  read_arguments (flag ∷ []) a = elim (set_switch flag a) [
    | some b ↦ ok b
    | none ↦ err (invalid "Missing value")
  ]
  read_arguments (flag ∷ value ∷ rest) a = elim (set_switch flag a) [
    | some b ↦ read_arguments (value ∷ rest) b
    | none ↦ set_value flag value a >>= read_arguments rest
  ]

abbrev pub has_bindings : ScanArguments → Bool
has_bindings a = ltb 0 (length a.bindings)

-- The layout of a raw scan: given, or of a boot profile.
unfoldable pub chosen_layout : ScanArguments → Result (Option Layout)
unfolding boot
chosen_layout a = elim a.profile [
  | some profile ↦
      refuse_if (not (has_bindings a) || is_some a.layout)
        "--boot-profile needs --bind and cannot combine with --layout"
      >> (boot profile a.bindings >>= λ layout. ok (some layout))
  | none ↦ refuse_if (has_bindings a) "--bind needs --boot-profile" >> ok a.layout
]

-- `jsonl.is_some_and(|p| p == output || p == input)`.
abbrev pub is_taken : String → String → Option String → Bool
is_taken input output none = false
is_taken input output (some path) = path is output || path is input

-- What the command runs with.
pub record ScanCommand : Type 0 where
  pub options : ScanOptions
  pub jsonl : Option String

module _ (d : Digest) (read_layout : List ℕ → Result Layout) (layout_at : String → Result Layout)
    (exists : String → Bool) where
  unfoldable pub scan_options : String → String → String → List String → Result ScanCommand
  unfolding read_arguments sort_by dedup chosen_layout
  scan_options command input output args = do
    a ← read_arguments layout_at args no_arguments
    refuse_if (command is "scan" && (is_some a.layout || is_some a.profile || has_bindings a))
        "Bundle scans use their verified layout; raw layout options are not allowed"
    layout ← chosen_layout a
    refuse_if (exists output) "Index output already exists"
    refuse_if (is_taken input output a.jsonl) "Outputs and input must be distinct"
    ok (record {
      options = record {
        only = dedup (sort_by text_less a.only);
        identity_mapping = a.identity_mapping;
        layout = layout;
        discover_bindings = a.discover_bindings;
      };
      jsonl = a.jsonl;
    })

  -- `scan_bundle_with` or `scan_raw_with`, by what the input is.
  unfoldable pub scan_source : Source → ScanOptions → Bool → Result Scanned
  unfolding scan_bundle_with scan_raw_with
  scan_source (folder bundle) options streaming =
      scan_bundle_with d read_layout bundle options streaming
  scan_source (raw_file file) options streaming = scan_raw_with d file options streaming

  -- What is written to the output, and what is printed.
  unfoldable pub scan_command :
      (String → Result Bundle)
      → (String → Result (List ℕ))
      → String
      → String
      → String
      → List String
      → Result (Scanned × Summary)
  unfolding scan_options scan_source summary
  scan_command bundle_at file_at command input output args = do
    c ← scan_options command input output args
    source ←
        (if command is "scan"
          then (bundle_at input >>= λ bundle. ok (folder bundle))
          else (file_at input >>= λ file. ok (raw_file file)))
    scanned ← scan_source source c.options (is_some c.jsonl)
    ok (scanned, summary scanned.index)
