-- ===== src/Census/Accounts.antt =====
-- The accounts of the census (`collect` of src/census.rs) agree with each other and with the index.
use zgcmaster.Prelude.{
  ℕ, ◌+◌, ◌≤◌, ◌≡◌, refl, ap, ◌∙◌, Bool, false, String, none, some, List, [], ◌∷◌, ltb, ◌==◌, ◌is◌,
  if◌then◌else◌, Bool-cases, inl, inr, arith,
}
use zgcmaster.Dict.{Counts, bump, total}
use zgcmaster.Dict.Laws.{count_of, count_of-add_to, total-bump}
use zgcmaster.Utf8.{Verdict, valid, incomplete_tail, invalid_sequence, from_utf8}
use zgcmaster.Census.Classify.{Classification, classify, verdict_name}
use zgcmaster.Census.Laws.{total_count, total_bytes, total-tally}
use zgcmaster.Census.Collect.{
  Regions, update_region, Collected, count_array, count_over_limit, count_anomaly, count_full,
}

-- The sum of one key over all regions.
unfoldable pub over_regions : String → Regions → ℕ
over_regions k [] = 0
over_regions k ((r, counts) ∷ rest) = count_of k counts + over_regions k rest

over_regions-update_region :
    (k : String) (region n : ℕ) (change : Counts → Counts) (rs : Regions)
    → ((c : Counts) → count_of k (change c) ≡ count_of k c + n)
    → over_regions k (update_region region change rs) ≡ over_regions k rs + n
unfolding over_regions update_region count_of
over_regions-update_region k region n change [] h = omega (arith, h [])
over_regions-update_region k region n change ((r, counts) ∷ rest) h =
    elim (Bool-cases (region == r)) [
      | inl here ↦ rw here (omega (arith, h counts))
      | inr other ↦ rw other (elim (Bool-cases (ltb region r)) [
        | inl below ↦ rw below (omega (arith, h []))
        | inr above ↦ rw above (omega (arith, over_regions-update_region k region n change rest h))
      ])
    ]

count_of-bump :
    (k j : String) (c : Counts) → count_of k (bump j c) ≡ count_of k c + (if j is k then 1 else 0)
unfolding bump
count_of-bump k j c = count_of-add_to k j 1 c

-- What a change to a region adds to its arrays and to its bytes.
record Adds (n m : ℕ) (change : Counts → Counts) : Type 0 where
  arrays : (c : Counts) → count_of "arrays" (change c) ≡ count_of "arrays" c + n
  bytes : (c : Counts) → count_of "payload_bytes" (change c) ≡ count_of "payload_bytes" c + m

count_array-Adds : (length : ℕ) → Adds 1 length (count_array length)
count_array-Adds length = record {
  arrays = λ c. omega (
    arith,
    count_of-add_to "arrays" "payload_bytes" length (bump "arrays" c),
    count_of-bump "arrays" "arrays" c,
  );
  bytes = λ c. omega (
    arith,
    count_of-add_to "payload_bytes" "payload_bytes" length (bump "arrays" c),
    count_of-bump "payload_bytes" "arrays" c,
  );
}

-- A bump of another key adds neither.
bump-Adds :
    (n m : ℕ) (key : String) (change : Counts → Counts)
    → key is "arrays" ≡ false
    → key is "payload_bytes" ≡ false
    → Adds n m change
    → Adds n m (λ c. bump key (change c))
bump-Adds n m key change no_array no_bytes a = record {
  arrays = λ c. rw no_array at (count_of-bump "arrays" key (change c)) ∙ omega (arith, a.arrays c);
  bytes =
      λ c. rw no_bytes at (count_of-bump "payload_bytes" key (change c)) ∙ omega (arith, a.bytes c);
}

-- The counts after `n` byte arrays of `m` bytes in all.
pub record IsCensus (n m : ℕ) (s : Collected) : Type 0 where
  pub counted : s.total ≡ n
  pub sized : s.total_bytes ≡ m
  pub formats : (total_count s.formats ≡ n) × (total_bytes s.formats ≡ m)
  pub classified : s.classified ≡ s.full_payloads + total_count s.prefix_magic
  pub bands : total_count s.bands ≡ s.full_payloads
  pub encodings : total s.encodings ≡ s.full_payloads
  pub few_classified : s.classified ≤ n
  pub few_anomalies : s.anomalies ≤ s.full_payloads
  pub arrays_by_region : over_regions "arrays" s.regions ≡ n
  pub bytes_by_region : over_regions "payload_bytes" s.regions ≡ m

pub no_magic-IsCensus :
    (n m region length : ℕ) (s : Collected)
    → IsCensus n m s
    → IsCensus (n + 1) (m + length) (count_over_limit region length none s)
unfolding count_over_limit
no_magic-IsCensus n m region length s i =
    let f = total-tally s.formats "unclassified-over-limit" length in
    let a = bump-Adds 1 length "over_limit" _ refl refl (count_array-Adds length) in
    record {
      counted = omega (arith, i.counted);
      sized = omega (arith, i.sized);
      formats = (omega (arith, f.0, i.formats.0), omega (arith, f.1, i.formats.1));
      classified = i.classified;
      bands = i.bands;
      encodings = i.encodings;
      few_classified = omega (arith, i.few_classified);
      few_anomalies = i.few_anomalies;
      arrays_by_region =
          over_regions-update_region "arrays" region 1 _ s.regions a.arrays
          ∙ ap (λ k. k + 1) i.arrays_by_region;
      bytes_by_region =
          over_regions-update_region "payload_bytes" region length _ s.regions a.bytes
          ∙ ap (λ k. k + length) i.bytes_by_region;
    }

pub prefix_magic-IsCensus :
    (n m region length : ℕ) (kind : String) (s : Collected)
    → IsCensus n m s
    → IsCensus (n + 1) (m + length) (count_over_limit region length (some kind) s)
unfolding count_over_limit
prefix_magic-IsCensus n m region length kind s i =
    let f = total-tally s.formats kind length in
    let p = total-tally s.prefix_magic kind length in
    let a = bump-Adds 1 length "over_limit" _ refl refl (
      bump-Adds 1 length "prefix_only_magic" _ refl refl
        (bump-Adds 1 length "classified" _ refl refl (count_array-Adds length))) in
    record {
      counted = omega (arith, i.counted);
      sized = omega (arith, i.sized);
      formats = (omega (arith, f.0, i.formats.0), omega (arith, f.1, i.formats.1));
      classified = omega (arith, p.0, i.classified);
      bands = i.bands;
      encodings = i.encodings;
      few_classified = omega (arith, i.few_classified);
      few_anomalies = i.few_anomalies;
      arrays_by_region =
          over_regions-update_region "arrays" region 1 _ s.regions a.arrays
          ∙ ap (λ k. k + 1) i.arrays_by_region;
      bytes_by_region =
          over_regions-update_region "payload_bytes" region length _ s.regions a.bytes
          ∙ ap (λ k. k + length) i.bytes_by_region;
    }

-- The name of a verdict is no key of the regions' own.
verdict_name-other :
    (v : Verdict)
    → (verdict_name v is "arrays" ≡ false) × (verdict_name v is "payload_bytes" ≡ false)
unfolding verdict_name
verdict_name-other valid = (refl, refl)
verdict_name-other incomplete_tail = (refl, refl)
verdict_name-other invalid_sequence = (refl, refl)

pub classify-other :
    (is_json : List ℕ → Bool) (payload : List ℕ)
    → ((classify is_json payload).utf8 is "arrays" ≡ false)
      × ((classify is_json payload).utf8 is "payload_bytes" ≡ false)
unfolding classify
classify-other is_json [] = (refl, refl)
classify-other is_json (b ∷ bs) = verdict_name-other (from_utf8 (b ∷ bs))

count_anomaly-Adds :
    (n m : ℕ) (c : Classification) (change : Counts → Counts)
    → c.utf8 is "arrays" ≡ false
    → c.utf8 is "payload_bytes" ≡ false
    → Adds n m change
    → Adds n m (λ r. count_anomaly c (change r))
count_anomaly-Adds n m c change no_array no_bytes a = elim (Bool-cases c.text_like_anomaly) [
  | inl on ↦ rw on (
      bump-Adds n m c.utf8 _ no_array no_bytes
        (bump-Adds n m "text_like_utf8_anomalies" change refl refl a))
  | inr off ↦ rw off a
]

pub count_full-IsCensus :
    (n m region length : ℕ) (c : Classification) (s : Collected)
    → c.utf8 is "arrays" ≡ false
    → c.utf8 is "payload_bytes" ≡ false
    → IsCensus n m s
    → IsCensus (n + 1) (m + length) (count_full region length c s)
unfolding count_full
count_full-IsCensus n m region length c s no_array no_bytes i =
    let f = total-tally s.formats c.kind length in
    let b = total-tally s.bands c.band length in
    let e = total-bump c.utf8 s.encodings in
    let a =
      count_anomaly-Adds 1 length c _ no_array no_bytes
        (bump-Adds 1 length "classified" _ refl refl (count_array-Adds length)) in
    record {
      counted = omega (arith, i.counted);
      sized = omega (arith, i.sized);
      formats = (omega (arith, f.0, i.formats.0), omega (arith, f.1, i.formats.1));
      classified = omega (arith, i.classified);
      bands = omega (arith, b.0, i.bands);
      encodings = omega (arith, e, i.encodings);
      few_classified = omega (arith, i.few_classified);
      few_anomalies = one_more c.text_like_anomaly s.anomalies s.full_payloads i.few_anomalies;
      arrays_by_region =
          over_regions-update_region "arrays" region 1 _ s.regions a.arrays
          ∙ ap (λ k. k + 1) i.arrays_by_region;
      bytes_by_region =
          over_regions-update_region "payload_bytes" region length _ s.regions a.bytes
          ∙ ap (λ k. k + length) i.bytes_by_region;
    }
  where
    one_more : (t : Bool) (x y : ℕ) → x ≤ y → x + (if t then 1 else 0) ≤ y + 1
    one_more t x y h = ground arith
