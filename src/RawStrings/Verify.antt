-- ===== src/RawStrings/Verify.antt =====
-- `verify` of src/raw_strings.rs: a uniform sample of the String headers, each resolved.
use zgcmaster.Prelude.{
  ℕ, ◌+◌, ◌&&◌, not, String, none, some, List, [], ◌∷◌, ◌++◌, length, set, ltb, leb, if◌then◌else◌,
  Result, ok, ◌>>=◌, ◌>>◌, refuse_if, ok_or,
}
use zgcmaster.Dict.{Counts, bump, get}
use zgcmaster.Digest.{Digest}
use zgcmaster.Sorting.{sort_by}
use zgcmaster.RawStrings.{Bindings, Decoded, pair, rejected, max_samples, header_width, decode_at}
use zgcmaster.RawStrings.Random.{below}
use zgcmaster.RawStrings.Walk.{walk_klass, recheck}

-- The reservoir.
pub record Sampling : Type 0 where
  pub selected : List ℕ
  pub seen : ℕ
  pub rng : ℕ

abbrev pub put : List ℕ → ℕ → ℕ → ℕ → List ℕ
put selected samples slot offset = if ltb slot samples then set selected slot offset else selected

-- The callback of the walk. A draw always ends, so that the error never arises.
unfoldable pub on_candidate : ℕ → ℕ → List ℕ → ℕ → Sampling → Result Sampling
unfolding below
on_candidate samples offset header size s =
    if ltb (length s.selected) samples
    then ok (record s { selected = s.selected ++ offset ∷ []; seen = s.seen + 1 })
    else (ok_or (below (s.seen + 1) s.rng) "a draw ends" >>= λ draw. ok (record {
      selected = put s.selected samples draw.0 offset;
      seen = s.seen + 1;
      rng = draw.1;
    }))

-- A row of the report: the reason or the status of the sample at an offset.
pub record Detail : Type 0 where
  pub string_offset : ℕ
  pub status : String

abbrev pub status_of_decoded : Decoded → String
status_of_decoded (rejected reason) = reason
status_of_decoded (pair p) = p.status

pub record Resolved : Type 0 where
  pub counts : Counts
  pub details : List Detail

unfoldable pub resolve : Bindings → List ℕ → ℕ → List ℕ → Resolved → Result Resolved
unfolding decode_at bump
resolve b file size [] s = ok s
resolve b file size (offset ∷ offsets) s = decode_at b file size offset >>= λ decoded.
    resolve b file size offsets (record {
      counts = bump (status_of_decoded decoded) s.counts;
      details =
          s.details ++ (record { string_offset = offset; status = status_of_decoded decoded }) ∷ [];
    })

-- `counts.get(key).copied().unwrap_or(0)`.
abbrev pub count_or_zero : String → Counts → ℕ
count_or_zero key counts = elim (get key counts) [ none ↦ 0 | some n ↦ n ]

pub record Report : Type 0 where
  pub hash : String
  pub bytes : ℕ
  pub requested : ℕ
  pub population : ℕ
  pub counts : Counts
  pub compared : ℕ
  pub confirmed : ℕ
  pub samples : List Detail

abbrev pub matched : Counts → ℕ
matched counts = count_or_zero "match" counts + count_or_zero "zero-hash-match" counts

-- `verify`, of a file that holds `later` when it is read again. The two rates of the report are
-- `confirmed` over `compared` and over the number of samples.
unfoldable pub verify : Digest → List ℕ → List ℕ → Bindings → ℕ → ℕ → Result Report
unfolding walk_klass on_candidate sort_by resolve recheck get
verify d file later b samples seed = do
  refuse_if (not (leb 1 samples && leb samples max_samples)) "--samples must be 1..10000"
  w ←
      walk_klass d (header_width b) (b.string_klass ∷ []) 32 (on_candidate samples) file
        (record { selected = []; seen = 0; rng = seed })
  found ←
      resolve b file w.size (sort_by ltb w.state.selected) (record { counts = []; details = [] })
  recheck d later w.size w.hash
  ok (record {
    hash = w.hash;
    bytes = w.size;
    requested = samples;
    population = w.count;
    counts = found.counts;
    compared = matched found.counts + count_or_zero "mismatch" found.counts;
    confirmed = matched found.counts;
    samples = found.details;
  })
