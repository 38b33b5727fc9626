-- ===== src/Corpus/Diff.antt =====
-- `diff_captures` of src/corpus.rs: the texts that two snapshots differ by. A row stands for its JSON
-- text.
use zgcmaster.Prelude.{
  ℕ, ◌-◌, Bool, ◌||◌, not, String, Option, none, some, List, [], ◌∷◌, ◌++◌, map, length, filter,
  leb, ◌is◌, if◌then◌else◌, Result, ok, ◌>>=◌, ◌>>◌, refuse_if,
}
use zgcmaster.Dict.{Dict, Counts, bump, insert, get}
use zgcmaster.Digest.{Digest}
use zgcmaster.Scan.{Index}
use zgcmaster.RawStrings.Walk.{recheck}
use zgcmaster.Loading.{check_index}
use zgcmaster.Patterns.{Pack, matches}
use zgcmaster.Census.{Tally}
use zgcmaster.Corpus.{Options, validate}
use zgcmaster.Corpus.Texts.{Entry, Strings, has_text}
use zgcmaster.Corpus.Snapshots.{Snapshot, snapshot}

-- `new as i64 - old as i64`.
pub data Delta : Type 0 where
  up down : ℕ → Delta

abbrev pub delta : ℕ → ℕ → Delta
delta old new = if leb old new then up (new - old) else down (old - new)

pub record FormatDelta : Type 0 where
  pub before : Tally
  pub after : Tally
  pub count_delta : Delta
  pub payload_bytes_delta : Delta

abbrev pub no_tally : Tally
no_tally = record { count = 0; payload_bytes = 0 }

abbrev pub tally_or_none : Option Tally → Tally
tally_or_none none = no_tally
tally_or_none (some t) = t

unfoldable pub format_delta : Dict Tally → Dict Tally → String → FormatDelta
unfolding get
format_delta before after name =
    let old = tally_or_none (get name before) in
    let new = tally_or_none (get name after) in
    record {
      before = old;
      after = new;
      count_delta = delta old.count new.count;
      payload_bytes_delta = delta old.payload_bytes new.payload_bytes;
    }

unfoldable pub add_deltas :
    Dict Tally → Dict Tally → Dict Tally → Dict FormatDelta → Dict FormatDelta
unfolding format_delta insert
add_deltas before after [] changes = changes
add_deltas before after ((name, t) ∷ names) changes =
    add_deltas before after names (insert name (format_delta before after name) changes)

-- `deltas`: an entry for every name of the two maps.
unfoldable pub deltas : Dict Tally → Dict Tally → Dict FormatDelta
unfolding add_deltas
deltas before after = add_deltas before after after (add_deltas before after before [])

-- The texts of `from` that `other` does not have, in their order.
unfoldable pub only_in : Strings → Strings → Strings
only_in from other = filter (λ (e : List ℕ × Entry). not (has_text e.0 other)) from

pub record Change : Type 0 where
  pub kind : String
  pub text : List ℕ
  pub first_offset : ℕ
  pub candidate_occurrences : ℕ
  pub regex_matches : List String

abbrev pub matches_of : Option Pack → List ℕ → List String
matches_of none text = []
matches_of (some pack) text = matches pack text

abbrev pub change_of : Option Pack → String → List ℕ × Entry → Change
change_of pack kind (text, entry) = record {
  kind = kind;
  text = text;
  first_offset = entry.first_offset;
  candidate_occurrences = entry.count;
  regex_matches = matches_of pack text;
}

-- The rows of one kind.
unfoldable pub changes : Option Pack → String → Strings → Strings → List Change
unfolding only_in matches
changes pack kind from other = map (change_of pack kind) (only_in from other)

unfoldable pub bump_all : List String → Counts → Counts
unfolding bump
bump_all [] counts = counts
bump_all (name ∷ names) counts = bump_all names (bump name counts)

unfoldable pub pattern_counts : List Change → Counts → Counts
unfolding bump_all
pattern_counts [] counts = counts
pattern_counts (c ∷ cs) counts = pattern_counts cs (bump_all c.regex_matches counts)

pub record Report : Type 0 where
  pub rows : List Change
  pub new_strings : ℕ
  pub gone_strings : ℕ
  pub unchanged_strings : ℕ
  pub regex_new_strings : Counts
  pub regex_gone_strings : Counts
  pub census_deltas : Dict FormatDelta

abbrev pub mismatch : Snapshot → Snapshot → Bool
mismatch before after =
    not (before.profile is after.profile)
    || not (before.java is after.java)
    || not (before.architecture is after.architecture)
    || not (same_bool before.identity_mapping after.identity_mapping)
  where
    same_bool : Bool → Bool → Bool
    same_bool a b = if a then b else not b

unfoldable pub report_of : Option Pack → Snapshot → Snapshot → Report
unfolding changes deltas pattern_counts
report_of pack before after =
    let new = changes pack "new" after.progress.strings before.progress.strings in
    let gone = changes pack "gone" before.progress.strings after.progress.strings in
    record {
      rows = new ++ gone;
      new_strings = length new;
      gone_strings = length gone;
      unchanged_strings = length after.progress.strings - length new;
      regex_new_strings = pattern_counts new [];
      regex_gone_strings = pattern_counts gone [];
      census_deltas = deltas before.census.formats after.census.formats;
    }

-- A raw capture, with what it holds when it is read again and once more, and its index as parsed.
pub record Capture : Type 0 where
  pub file : List ℕ
  pub later : List ℕ
  pub last : List ℕ
  pub index : Index

module _ (d : Digest) (is_json : List ℕ → Bool) (options : Options) where
  unfoldable pub load_snapshot : Capture → Result Snapshot
  unfolding check_index snapshot
  load_snapshot c = check_index c.index >>= λ index. snapshot is_json options d c.file c.later index

  -- `diff_captures`.
  unfoldable pub diff_captures : Option Pack → Capture → Capture → Result Report
  unfolding validate load_snapshot report_of recheck
  diff_captures pack first second = do
    validate options
    before ← load_snapshot first
    after ← load_snapshot second
    refuse_if (mismatch before after)
        "Corpus diff requires matching profile, JDK labels, architecture and identity mode; class IDs may differ"
    recheck d first.last before.heap_bytes before.heap_sha256
    recheck d second.last after.heap_bytes after.heap_sha256
    ok (report_of pack before after)
