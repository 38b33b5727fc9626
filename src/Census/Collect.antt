-- ===== src/Census/Collect.antt =====
-- `collect` and `census` of src/census.rs: the byte arrays of an index, classified and counted.
use zgcmaster.Prelude.{
  ℕ, ◌+◌, ◌-◌, ◌*◌, ◌/◌, min, Bool, ◌||◌, not, String, Option, none, some, List, [], ◌∷◌, ltb, ◌==◌,
  ◌is◌, if◌then◌else◌, Result, ok, ◌>>=◌, ◌>>◌, refuse_if, ok_or, try_fold,
}
use zgcmaster.Sets.{update}
use zgcmaster.Dict.{Dict, Counts, add_to, bump}
use zgcmaster.Digest.{Digest}
use zgcmaster.Scan.{Object, Index}
use zgcmaster.Reader.{Reader, bytes, class_name, class_of, validate_object}
use zgcmaster.Loading.{open_raw}
use zgcmaster.RawStrings.Walk.{recheck}
use zgcmaster.Census.{Options, validate_options, Tally, tally, magic, require_indexed}
use zgcmaster.Census.Classify.{Classification, classify}

-- The counts of each region, in the order of the regions.
abbrev pub Regions : Type 0
Regions = List (ℕ × Counts)

-- What is done to `regions.entry(region).or_default()`.
unfoldable pub update_region : ℕ → (Counts → Counts) → Regions → Regions
unfolding update
update_region region change regions = update region [] change regions

pub record Collected : Type 0 where
  pub formats : Dict Tally
  pub bands : Dict Tally
  pub encodings : Counts
  pub regions : Regions
  pub total_bytes : ℕ
  pub total : ℕ
  pub classified : ℕ
  pub full_payloads : ℕ
  pub prefix_magic : Dict Tally
  pub anomalies : ℕ

abbrev pub nothing_collected : Collected
nothing_collected = record {
  formats = [];
  bands = [];
  encodings = [];
  regions = [];
  total_bytes = 0;
  total = 0;
  classified = 0;
  full_payloads = 0;
  prefix_magic = [];
  anomalies = 0;
}

-- Every byte array is counted in its region.
abbrev pub count_array : ℕ → Counts → Counts
count_array length region = add_to "payload_bytes" length (bump "arrays" region)

unfoldable pub count_over_limit : ℕ → ℕ → Option String → Collected → Collected
unfolding update_region add_to tally
count_over_limit region length none s = record s {
  formats = tally s.formats "unclassified-over-limit" length;
  regions = update_region region (λ c. bump "over_limit" (count_array length c)) s.regions;
  total_bytes = s.total_bytes + length;
  total = s.total + 1;
}
count_over_limit region length (some kind) s = record s {
  formats = tally s.formats kind length;
  prefix_magic = tally s.prefix_magic kind length;
  regions =
      update_region region
        (λ c.
          bump "over_limit" (bump "prefix_only_magic" (bump "classified" (count_array length c))))
        s.regions;
  total_bytes = s.total_bytes + length;
  total = s.total + 1;
  classified = s.classified + 1;
}

abbrev pub count_anomaly : Classification → Counts → Counts
count_anomaly c region =
    if c.text_like_anomaly then bump c.utf8 (bump "text_like_utf8_anomalies" region) else region

unfoldable pub count_full : ℕ → ℕ → Classification → Collected → Collected
unfolding update_region add_to tally
count_full region length c s = record s {
  formats = tally s.formats c.kind length;
  bands = tally s.bands c.band length;
  encodings = bump c.utf8 s.encodings;
  regions =
      update_region region (λ r. count_anomaly c (bump "classified" (count_array length r)))
        s.regions;
  total_bytes = s.total_bytes + length;
  total = s.total + 1;
  classified = s.classified + 1;
  full_payloads = s.full_payloads + 1;
  anomalies = s.anomalies + (if c.text_like_anomaly then 1 else 0);
}

module _ (is_json : List ℕ → Bool) where
  module _ (options : Options) (r : Reader) where
    -- A byte array of the given length whose payload starts at `start`.
    unfoldable pub collect_payload : ℕ → ℕ → ℕ → Collected → Result Collected
    unfolding bytes magic classify count_over_limit count_full
    collect_payload region start length s =
        if ltb options.max_bytes length
        then (bytes r start (min length 32) >>= λ prefix.
            ok (count_over_limit region length (magic prefix) s))
        else (bytes r start length >>= λ payload.
            ok (count_full region length (classify is_json payload) s))

    unfoldable pub collect_array : Object → Collected → Result Collected
    unfolding class_of validate_object collect_payload
    collect_array object s = do
      class ← class_of r object
      refuse_if
          (not (class.kind is "array") || not (class.element is "byte") || not (class.scale == 1))
          "[B layout is not a byte array"
      validate_object r object class
      length ← ok_or object.length "Byte array has no length"
      collect_payload (object.offset / options.region_bytes * options.region_bytes)
          (object.offset + class.base) length s

    -- The body of the loop over the objects.
    unfoldable pub collect_object : Collected → Object → Result Collected
    unfolding class_name collect_array
    collect_object s object =
        if class_name r.index object is "[B" then collect_array object s else ok s

  unfoldable pub collect : Reader → Options → Result Collected
  unfolding validate_options require_indexed collect_object
  collect r options =
      validate_options options
      >> require_indexed r.index ("[B" ∷ [])
      >> try_fold (collect_object options r) nothing_collected r.index.objects

  -- `census` on a raw file, which holds `later` when it is read again.
  unfoldable pub census : Digest → List ℕ → List ℕ → Index → Options → Result Collected
  unfolding validate_options open_raw collect recheck
  census d file later index options = do
    validate_options options
    reader ← open_raw d file index
    report ← collect reader options
    recheck d later reader.index.heap_bytes reader.index.heap_sha256
    ok report

-- The counts that the report names over the limits.
abbrev pub over_limit_arrays : Collected → ℕ
over_limit_arrays s = s.total - s.full_payloads

abbrev pub unclassified_arrays : Collected → ℕ
unclassified_arrays s = s.total - s.classified
