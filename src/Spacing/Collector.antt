-- ===== src/Spacing/Collector.antt =====
-- `Collector` of src/spacing.rs and `detection` of src/analysis.rs: the groups of a scan, the
-- votes for the two header widths, and the report. Confidence is an exact fraction.
use zgcmaster.Prelude.{
  ℕ, ◌+◌, ◌*◌, ◌^◌, bit_xor, max, Bool, true, false, ◌&&◌, ◌||◌, not, String, Option, none, some,
  List, [], ◌∷◌, length, ltb, ◌==◌, if◌then◌else◌, join,
}
use zgcmaster.Words.Hex.{hex}
use zgcmaster.Dict.{Dict, insert}
use zgcmaster.Spacing.{
  Ratio, GroupStats, Kind, wide, narrow, Group, max_groups, vote_count, observe, finish_group,
}

-- `[u64; 2]`, by `Kind::slot`.
pub record Pair : Type 0 where
  pub on_wide : ℕ
  pub on_narrow : ℕ

abbrev pub nothing : Pair
nothing = record { on_wide = 0; on_narrow = 0 }

abbrev pub add_slot : Kind → ℕ → Pair → Pair
add_slot wide n p = record p { on_wide = p.on_wide + n }
add_slot narrow n p = record p { on_narrow = p.on_narrow + n }

abbrev pub slot : Kind → ℕ
slot wide = 0
slot narrow = 1

abbrev pub kind_name : Kind → String
kind_name wide = "wide"
kind_name narrow = "narrow"

abbrev pub same_kind : Kind → Kind → Bool
same_kind wide wide = true
same_kind narrow narrow = true
same_kind _ _ = false

pub record Entry : Type 0 where
  pub kind : Kind
  pub klass : ℕ
  pub group : Group

-- `HashMap<(Kind, u64), Group>`, in the order of the first hits.
abbrev pub Groups : Type 0
Groups = List Entry

pub record Collector : Type 0 where
  pub groups : Groups
  pub raw_votes : Pair
  pub untracked_votes : Pair
  pub untracked_hits : Pair

abbrev pub empty : Collector
empty = record {
  groups = [];
  raw_votes = nothing;
  untracked_votes = nothing;
  untracked_hits = nothing;
}

abbrev pub fresh : Kind → ℕ → Group
fresh kind klass = record {
  hits = 0;
  votes = 0;
  first = 0;
  last = 0;
  samples = [];
  rng = bit_xor klass (slot kind * 2 ^ 63);
}

abbrev pub has_key : Kind → ℕ → Entry → Bool
has_key kind klass e = same_kind kind e.kind && klass == e.klass

unfoldable pub contains_key : Kind → ℕ → Groups → Bool
contains_key kind klass [] = false
contains_key kind klass (e ∷ es) = has_key kind klass e || contains_key kind klass es

-- `entry(key).or_insert_with(fresh)`, observed.
unfoldable pub observe_entry : Kind → ℕ → ℕ → Bool → Groups → Groups
observe_entry kind klass offset vote [] =
    record { kind = kind; klass = klass; group = observe (fresh kind klass) offset vote } ∷ []
observe_entry kind klass offset vote (e ∷ es) =
    if has_key kind klass e
    then record e { group = observe e.group offset vote } ∷ es
    else e ∷ observe_entry kind klass offset vote es

-- `Collector::observe`.
unfoldable pub observe_hit : Collector → Kind → ℕ → ℕ → Bool → Collector
unfolding contains_key observe_entry
observe_hit c kind klass offset vote =
    let voted = record c { raw_votes = add_slot kind (vote_count vote) c.raw_votes } in
    if length c.groups == max_groups && not (contains_key kind klass c.groups)
    then record voted {
      untracked_votes = add_slot kind (vote_count vote) c.untracked_votes;
      untracked_hits = add_slot kind 1 c.untracked_hits;
    }
    else record voted { groups = observe_entry kind klass offset vote c.groups }

pub data Suggestion : Type 0 where
  inconclusive uncompressed_klass compressed_klass : Suggestion

pub record Detection : Type 0 where
  pub suggestion : Suggestion
  pub confidence : Option Ratio
  pub retained_vote_share : Option Ratio
  pub wide_votes : ℕ
  pub narrow_votes : ℕ
  pub raw_votes : Pair
  pub excluded_periodic_votes : Pair
  pub untracked_votes : Pair
  pub untracked_group_hits : Pair
  pub abstention_reason : Option String

-- `confidence < 0.8`; with no votes the confidence is 0.
abbrev pub below_80_percent : Ratio → Bool
below_80_percent r = r.den == 0 || ltb (r.num * 10) (r.den * 8)

unfoldable pub suggest : ℕ → ℕ → Suggestion
suggest on_wide on_narrow =
    let votes = on_wide + on_narrow in
    if ltb votes 32 || below_80_percent (record { num = max on_wide on_narrow; den = votes })
    then inconclusive
    else if ltb on_narrow on_wide
    then uncompressed_klass
    else compressed_klass

pub record Report : Type 0 where
  pub stats : Dict GroupStats
  pub detection : Detection
  pub truncated : Bool

unfoldable pub group_key : Kind → ℕ → String
group_key kind klass = join (kind_name kind) (join ":" (hex klass))

pub record Sums : Type 0 where
  pub stats : Dict GroupStats
  pub excluded : Pair
  pub retained : Pair

-- The loop of `Collector::finish` over the groups.
unfoldable pub finish_groups : Groups → Sums → Sums
unfolding finish_group
finish_groups [] s = s
finish_groups (e ∷ es) s =
    let stats = finish_group e.group in
    finish_groups es (record {
      stats = insert (group_key e.kind e.klass) stats s.stats;
      excluded =
          (if stats.periodic then add_slot e.kind stats.detection_votes s.excluded else s.excluded);
      retained =
          (if stats.periodic then s.retained else add_slot e.kind stats.detection_votes s.retained);
    })

abbrev pub is_inconclusive : Suggestion → Bool
is_inconclusive inconclusive = true
is_inconclusive _ = false

abbrev pub positive : Pair → Bool
positive p = ltb 0 p.on_wide || ltb 0 p.on_narrow

-- `Collector::finish`.
unfoldable pub finish : Collector → Report
unfolding finish_groups suggest
finish c =
    let sums =
      finish_groups c.groups (record { stats = []; excluded = nothing; retained = nothing }) in
    let w = sums.retained.on_wide in
    let n = sums.retained.on_narrow in
    let dropped = positive c.untracked_votes in
    let suggestion = (if dropped then inconclusive else suggest w n) in
    let share : Ratio = record { num = max w n; den = w + n } in
    record {
      stats = sums.stats;
      truncated = positive c.untracked_hits;
      detection = record {
        suggestion = suggestion;
        confidence = (if is_inconclusive suggestion then none else some share);
        retained_vote_share = some share;
        wide_votes = w;
        narrow_votes = n;
        raw_votes = c.raw_votes;
        excluded_periodic_votes = sums.excluded;
        untracked_votes = c.untracked_votes;
        untracked_group_hits = c.untracked_hits;
        abstention_reason =
            (if dropped
              then some
                  "group limit dropped detection-eligible hits; retained vote share cannot establish the capture profile"
              else if ltb (w + n) 32
              then some "fewer than 32 non-periodic detection votes remain"
              else none);
      };
    }
